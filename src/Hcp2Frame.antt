-- ===== src/Hcp2Frame.antt =====
-- components/hcpbridge/hcp2_frame.h and hcp2_frame.cpp: the checksum of the newer bus, which is
-- Modbus RTU underneath. A buffer and its length are one list of bytes.
pub mod Checksum
pub mod RoundTrip
mod Tests
use esphome_hcpbridge.Base.{
  ℕ, zero, suc, ◌+◌, ◌-◌, ◌*◌, ◌/◌, ◌%◌, List, [], ◌∷◌, ◌++◌, ltb, ◌==◌, if◌then◌else◌, bit_xor,
  length, get_or, take, hi_byte, lo_byte, ◌||◌,
}

abbrev pub slave_id : ℕ
slave_id = 2

abbrev pub hcp2_max_frame : ℕ
hcp2_max_frame = 256

-- One round of the shift register, poly 0xA001.
unfoldable pub crc16_bit : ℕ → ℕ
crc16_bit crc = if crc % 2 == 1 then bit_xor (crc / 2) 0xa001 else crc / 2

-- The inner loop.
unfoldable pub crc16_bits : ℕ → ℕ → ℕ
unfolding crc16_bit
crc16_bits zero crc = crc
crc16_bits (suc bits) crc = crc16_bits bits (crc16_bit crc)

unfoldable pub crc16_from : ℕ → List ℕ → ℕ
unfolding crc16_bits
crc16_from crc [] = crc
crc16_from crc (b ∷ bs) = crc16_from (crc16_bits 8 (bit_xor crc b)) bs

unfoldable pub hcp2_crc16 : List ℕ → ℕ
unfolding crc16_from
hcp2_crc16 bytes = crc16_from 0xffff bytes

-- The length without the checksum, or 0.
unfoldable pub hcp2_validate : List ℕ → ℕ
hcp2_validate buf =
    let len = length buf in
    let got = get_or buf (len - 2) 0 + get_or buf (len - 1) 0 * 256 in
    if ltb len 4 then 0 else (if got == hcp2_crc16 (take (len - 2) buf) then len - 2 else 0)

-- The frame with its checksum; nothing where the code returns 0.
unfoldable pub hcp2_finish : List ℕ → ℕ → List ℕ
hcp2_finish buf cap =
    let crc = hcp2_crc16 buf in
    if length buf == 0 || ltb cap (length buf + 2)
    then []
    else buf ++ (lo_byte crc ∷ hi_byte crc ∷ [])

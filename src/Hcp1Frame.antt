-- ===== src/Hcp1Frame.antt =====
-- components/hcpbridge/hcp1_frame.h and hcp1_frame.cpp: the frames of the older bus. A buffer and
-- its length are one list of bytes.
pub mod Checksum
pub mod RoundTrip
mod Tests
use esphome_hcpbridge.Base.{
  ℕ, zero, suc, ◌+◌, ◌-◌, ◌*◌, ◌/◌, ◌%◌, List, [], ◌∷◌, ◌++◌, Option, none, some, ltb, ◌==◌,
  if◌then◌else◌, bit_xor, length, get_or, take, drop, u8, not, leb, ◌||◌,
}

abbrev pub hcp1_addr_broadcast : ℕ
hcp1_addr_broadcast = 0x00

abbrev pub hcp1_addr_self : ℕ
hcp1_addr_self = 0x28

abbrev pub hcp1_addr_master : ℕ
hcp1_addr_master = 0x80

abbrev pub hcp1_cmd_scan : ℕ
hcp1_cmd_scan = 0x01

abbrev pub hcp1_cmd_status_request : ℕ
hcp1_cmd_status_request = 0x20

abbrev pub hcp1_cmd_status_response : ℕ
hcp1_cmd_status_response = 0x29

abbrev pub hcp1_type_uap1 : ℕ
hcp1_type_uap1 = 0x14

abbrev pub hcp1_do_open : ℕ
hcp1_do_open = 1

abbrev pub hcp1_do_close : ℕ
hcp1_do_close = 2

abbrev pub hcp1_do_impulse : ℕ
hcp1_do_impulse = 4

abbrev pub hcp1_do_light : ℕ
hcp1_do_light = 8

abbrev pub hcp1_do_vent : ℕ
hcp1_do_vent = 16

abbrev pub hcp1_s0_healthy : ℕ
hcp1_s0_healthy = 16

abbrev pub hcp1_max_frame : ℕ
hcp1_max_frame = 16

-- One round of the shift register, poly 0x07, most significant bit first.
pub crc8_bit : ℕ → ℕ
crc8_bit crc = if leb 0x80 crc then bit_xor (u8 (crc * 2)) 0x07 else u8 (crc * 2)

-- The inner loop.
pub crc8_bits : ℕ → ℕ → ℕ
unfolding crc8_bit
crc8_bits zero crc = crc
crc8_bits (suc bits) crc = crc8_bits bits (crc8_bit crc)

pub crc8_from : ℕ → List ℕ → ℕ
unfolding crc8_bits
crc8_from crc [] = crc
crc8_from crc (b ∷ bs) = crc8_from (crc8_bits 8 (bit_xor crc b)) bs

unfoldable pub hcp1_crc8 : List ℕ → ℕ
unfolding crc8_from
hcp1_crc8 bytes = crc8_from 0xf3 bytes

-- `payload` is `data`; its length is the field `length`.
pub record Hcp1Frame : Type 0 where
  pub address : ℕ
  pub counter : ℕ
  pub payload : List ℕ

unfoldable pub hcp1_parse : List ℕ → Option Hcp1Frame
hcp1_parse buf =
    let len = length buf in
    let declared = get_or buf 1 0 % 16 in
    if ltb len 3 || ltb hcp1_max_frame len
    then none
    else (if not (declared + 3 == len)
        then none
        else (if not (hcp1_crc8 (take (len - 1) buf) == get_or buf (len - 1) 0)
            then none
            else some (record {
              address = get_or buf 0 0;
              counter = get_or buf 1 0 / 16;
              payload = take declared (drop 2 buf);
            })))

-- The frame; nothing where the code returns 0.
unfoldable pub hcp1_build : ℕ → ℕ → ℕ → List ℕ → List ℕ
hcp1_build cap address counter payload =
    let total = length payload + 3 in
    let head = address ∷ ((counter % 16) * 16 + length payload) ∷ payload in
    if ltb 0x0f (length payload) || ltb cap total || ltb hcp1_max_frame total
    then []
    else head ++ (hcp1_crc8 head ∷ [])

unfoldable pub hcp1_next_counter : ℕ → ℕ
hcp1_next_counter received = (received + 1) % 16

-- ===== src/Hcp2/Bounds.antt =====
-- The array accesses of `onFrame` stay inside the frame, the registers and the answer buffer.
use esphome_hcpbridge.Base.{
  ◌⊎◌, ℕ, ◌+◌, ◌*◌, ◌≤◌, ◌≡◌, arith, List, [], ◌∷◌, get_or, length, length-append, lo_byte, hi_byte,
  u8,
}
use esphome_hcpbridge.Hcp2Frame.{hcp2_finish, hcp2_crc16, hcp2_max_frame}
use esphome_hcpbridge.Hcp2.Codec.{Hcp2Codec, rd16}
use esphome_hcpbridge.Hcp2.Frame.{resp_bytes, serve_read_write, on_read_write}
use esphome_hcpbridge.Hcp2.Answers.{length-resp_bytes}

length-hcp2_finish : (frame : List ℕ) (cap : ℕ) → length (hcp2_finish frame cap) ≤ length frame + 2
unfolding hcp2_finish
length-hcp2_finish frame cap =
    ground
      (arith, length-append frame (lo_byte (hcp2_crc16 frame) ∷ hi_byte (hcp2_crc16 frame) ∷ []))

length-reply :
    (cap address code n count : ℕ) (regs : List ℕ)
    → length (hcp2_finish (address ∷ code ∷ n ∷ resp_bytes count regs) cap) ≤ 5 + 2 * count
length-reply cap address code n count regs = ground (
  arith,
  length-resp_bytes count regs,
  length-hcp2_finish (address ∷ code ∷ n ∷ resp_bytes count regs) cap,
)

serve_read_write-length :
    (c : Hcp2Codec) (now : ℕ) (req : List ℕ) (read_cnt write_cnt : ℕ)
    → length (serve_read_write c now req read_cnt write_cnt).1 ≤ 5 + 2 * read_cnt
unfolding serve_read_write
serve_read_write-length c now req read_cnt write_cnt =
    length-reply hcp2_max_frame (get_or req 0 0) 0x17 (u8 (read_cnt * 2)) read_cnt _

-- A read/write frame is either not answered, or reads at most 8 registers, writes at most 9,
-- carries every written register inside its own length, gets an answer of at most 5 bytes and 2
-- for each register read, and its read block ends within 16 bits.
pub on_read_write_bounds :
    (c : Hcp2Codec) (now : ℕ) (req : List ℕ) (len : ℕ)
    → let out = (on_read_write c now req len).1 in
      (out ≡ [])
      ⊎ ((rd16 req 4 ≤ 8)
          × (rd16 req 8 ≤ 9)
          × (11 + 2 * rd16 req 8 ≤ len)
          × (length out ≤ 5 + 2 * rd16 req 4)
          × (rd16 req 2 + rd16 req 4 ≤ 0xffff))
unfolding on_read_write
on_read_write_bounds c now req len =
    ground (arith, serve_read_write-length c now req (rd16 req 4) (rd16 req 8))

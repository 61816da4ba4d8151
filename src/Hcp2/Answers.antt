-- ===== src/Hcp2/Answers.antt =====
-- What goes back onto the wire, and what a frame without an answer may change.
use esphome_hcpbridge.Base.{
  zero, suc, sym, subst, ◌⊎◌, ℕ, ◌*◌, ◌≤◌, ◌<◌, ◌≡◌, refl, arith, List, [], ◌∷◌, ◌++◌, length,
  get_or, u8,
}
use esphome_hcpbridge.Base.{
  Bool, true, false, not, ◌&&◌, if◌then◌else◌, Bool-cases, inl, inr, leb, ◌==◌, ◌+◌, ◌≢◌,
}
use esphome_hcpbridge.Hcp2Frame.{hcp2_validate, hcp2_finish, hcp2_max_frame}
use esphome_hcpbridge.Hcp2Frame.RoundTrip.{hcp2_validate-finish, hcp2_finish_lem}
use esphome_hcpbridge.Hcp2.Codec.{Hcp2Codec, wr16, rd16}
use esphome_hcpbridge.Hcp2.Frame.{
  resp_bytes, serve_read_write, on_read_write, on_broadcast, on_valid_frame, on_frame, notice_frame,
}
use esphome_hcpbridge.Hcp2.Presses.{presses, presses-notice_frame}

pub length-resp_bytes : (n : ℕ) (regs : List ℕ) → length (resp_bytes n regs) ≤ 2 * n
unfolding resp_bytes
length-resp_bytes zero regs = ground arith
length-resp_bytes (suc n) [] = ground arith
length-resp_bytes (suc n) (r ∷ regs) = ground (arith, length-resp_bytes n regs)

-- A reply with the checksum.
abbrev pub IsReply : List ℕ → ℕ → ℕ → Type 0
IsReply out address code =
    (0 < hcp2_validate out) × (get_or out 0 0 ≡ address) × (get_or out 1 0 ≡ code)

hcp2_finish-IsReply :
    (address code : ℕ) (body : List ℕ)
    → length body ≤ 60
    → IsReply (hcp2_finish (address ∷ code ∷ body) hcp2_max_frame) address code
hcp2_finish-IsReply address code body room =
    let frame = address ∷ code ∷ body in
    let shape = hcp2_finish_lem frame hcp2_max_frame (ground arith) (ground arith) in
    (
      ground (arith, hcp2_validate-finish frame hcp2_max_frame (ground arith) (ground arith)),
      subst (λ (out : List ℕ). get_or out 0 0 ≡ address) (sym shape) refl,
      subst (λ (out : List ℕ). get_or out 1 0 ≡ code) (sym shape) refl,
    )

length-payload : (n b : ℕ) (regs : List ℕ) → n ≤ 8 → length (b ∷ resp_bytes n regs) ≤ 60
length-payload n b regs room = ground (arith, length-resp_bytes n regs)

serve_read_write-IsReply :
    (c : Hcp2Codec) (now : ℕ) (req : List ℕ) (read_cnt write_cnt : ℕ)
    → read_cnt ≤ 8
    → IsReply (serve_read_write c now req read_cnt write_cnt).1 (get_or req 0 0) 0x17
unfolding serve_read_write
serve_read_write-IsReply c now req read_cnt write_cnt room =
    hcp2_finish-IsReply (get_or req 0 0) 0x17 (u8 (read_cnt * 2) ∷ resp_bytes read_cnt _)
      (length-payload read_cnt (u8 (read_cnt * 2)) _ room)

-- Silence, or a reply.
abbrev pub Answers : List ℕ → ℕ → ℕ → Type 0
Answers out address code = (out ≡ []) ⊎ IsReply out address code

on_read_write-Answers :
    (c : Hcp2Codec) (now : ℕ) (req : List ℕ) (len : ℕ)
    → Answers (on_read_write c now req len).1 (get_or req 0 0) 0x17
unfolding on_read_write
on_read_write-Answers c now req len =
    ground (arith, serve_read_write-IsReply c now req (rd16 req 4) (rd16 req 8))

on_broadcast-Answers :
    (c : Hcp2Codec) (now : ℕ) (req : List ℕ) (len : ℕ)
    → Answers (on_broadcast c now req len).1 (get_or req 0 0) 0x10
unfolding on_broadcast
on_broadcast-Answers c now req len = ground (
  arith,
  hcp2_finish-IsReply (get_or req 0 0) 0x10 (wr16 (rd16 req 2) ++ wr16 (rd16 req 4)) (ground arith),
)

-- Whatever arrives, the answer is either nothing, or a frame whose checksum validates and that
-- begins with the address and the function code of the frame it answers.
pub on_frame-Answers :
    (c : Hcp2Codec) (now : ℕ) (raw : List ℕ)
    → Answers (on_frame c now raw).1 (get_or raw 0 0) (get_or raw 1 0)
unfolding on_frame on_valid_frame
on_frame-Answers c now raw = ground (
  arith,
  on_read_write-Answers (notice_frame c now) now raw (hcp2_validate raw),
  on_broadcast-Answers (notice_frame c now) now raw (hcp2_validate raw),
)

-- The frames that poll us: whole, to our kind of address, reading some of the answer registers and
-- writing some of the command registers, with as many bytes as they say.
unfoldable pub is_poll : List ℕ → Bool
is_poll raw =
    let len = hcp2_validate raw in
    let reads = rd16 raw 4 in
    let writes = rd16 raw 8 in
    not (len == 0)
    && not (get_or raw 0 0 == 0)
    && get_or raw 1 0 == 0x17
    && leb 11 len
    && rd16 raw 2 == 0x9cb9
    && rd16 raw 6 == 0x9c41
    && leb 1 reads
    && leb reads 8
    && leb 1 writes
    && leb writes 9
    && get_or raw 10 0 == 2 * writes
    && leb (11 + 2 * writes) len

-- Every other read/write frame.
stray_read_write :
    (c : Hcp2Codec) (now : ℕ) (raw : List ℕ)
    → is_poll raw ≡ false
    → (hcp2_validate raw == 0) ≡ false
    → (get_or raw 0 0 == 0) ≡ false
    → get_or raw 1 0 ≡ 0x17
    → let r = on_read_write c now raw (hcp2_validate raw) in (r.1 ≡ []) × (presses r.0 ≡ presses c)
unfolding on_read_write is_poll
stray_read_write c now raw other whole named code = ground (arith, other, whole, named, code)

stray_frame :
    (c : Hcp2Codec) (now : ℕ) (raw : List ℕ)
    → is_poll raw ≡ false
    → get_or raw 1 0 ≢ 0x10
    → let r = on_frame c now raw in (r.1 ≡ []) × (presses r.0 ≡ presses c)
unfolding on_frame on_valid_frame
stray_frame c now raw other code =
    ground
      (arith, code, presses-notice_frame c now, stray_read_write (notice_frame c now) now raw other)

-- Every poll is answered.
on_frame-is_poll :
    (c : Hcp2Codec) (now : ℕ) (raw : List ℕ)
    → is_poll raw ≡ true
    → get_or (on_frame c now raw).1 1 0 ≡ 0x17
unfolding on_frame on_valid_frame on_read_write is_poll
on_frame-is_poll c now raw poll =
    ground
      (arith, poll, serve_read_write-IsReply (notice_frame c now) now raw (rd16 raw 4) (rd16 raw 8))

not_silent : (out : List ℕ) → get_or out 1 0 ≡ 0x17 → (length out == 0) ≡ false
not_silent [] code = absurd (ground (arith, code))
not_silent (b ∷ bs) code = ground arith

-- A frame whose function code is not that of a broadcast is answered exactly if its checksum is
-- good, it is a read/write frame to one accessory and not to everybody, it reads the block of the
-- answers and writes the block of the commands, and its counts and lengths agree; if not, it
-- leaves the slot, its stamp, the watch, what is armed and what was last sent as they were.
pub presses-on_frame_stray :
    (c : Hcp2Codec) (now : ℕ) (raw : List ℕ)
    → get_or raw 1 0 ≢ 0x10
    → let r = on_frame c now raw in
      ((length r.1 == 0) ≡ not (is_poll raw))
      × (presses r.0 ≡ (if is_poll raw then presses r.0 else presses c))
presses-on_frame_stray c now raw code = elim (Bool-cases (is_poll raw)) [
  | inl poll ↦ rw poll (not_silent (on_frame c now raw).1 (on_frame-is_poll c now raw poll), refl)
  | inr stray ↦ let kept = stray_frame c now raw stray code in rw (stray, kept.0) (refl, kept.1)
]

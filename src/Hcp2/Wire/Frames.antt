-- ===== src/Hcp2/Wire/Frames.antt =====
-- A whole frame of hcp2_codec.cpp: what its answer presses is noted, and the registers stay.
use esphome_hcpbridge.Base.{
  ℕ, ◌+◌, ◌*◌, ◌≡◌, refl, ap, ◌∙◌, true, false, ◌==◌, List, arith, get_or, length, drop, inl, inr,
  zero, suc, Option-cases, u32,
}
use esphome_hcpbridge.State.{is_nothing}
use esphome_hcpbridge.Hcp2Frame.{hcp2_validate}
use esphome_hcpbridge.Hcp2.Codec.{Hcp2Codec, rd16}
use esphome_hcpbridge.Hcp2.Commands.{stop_door}
use esphome_hcpbridge.Hcp2.Poll.{on_request_hook, mark_registered, answer_other}
use esphome_hcpbridge.Hcp2.Broadcast.{
  write_bcast, write_bcasts, check_goto_target, on_door_position_changed, on_current_state_changed,
  on_reg_seven_changed, decode_state,
}
use esphome_hcpbridge.Hcp2.Frame.{
  notice_frame, on_read_write, on_broadcast, on_valid_frame, on_frame,
}
use esphome_hcpbridge.Hcp2.Answers.{on_frame-Answers}
use esphome_hcpbridge.Hcp2.Wire.{carries, carries-silence, carries_code}
use esphome_hcpbridge.Hcp2.Wire.Registers.{IsWide}
use esphome_hcpbridge.Hcp2.Wire.Answered.{serve_read_write-noted}

on_read_write-noted :
    (c : Hcp2Codec) (now : ℕ) (req : List ℕ) (len : ℕ)
    → IsWide c.reg_resp
    → let r = on_read_write c now req len in
      IsWide r.0.reg_resp × (is_nothing r.0.last_sent_command ≡ true → carries r.1 ≡ false)
unfolding on_read_write
on_read_write-noted c now req len wide =
    ground
      (arith, wide, carries-silence, serve_read_write-noted c now req (rd16 req 4) (rd16 req 8))

registers-on_current_state_changed :
    (c : Hcp2Codec) (old val : ℕ) → (on_current_state_changed c old val).reg_resp ≡ c.reg_resp
unfolding on_current_state_changed
registers-on_current_state_changed c old val = elim (Option-cases (decode_state val)) [
  | inl unknown ↦ rw unknown (ground arith)
  | inr (d, known) ↦ rw known (ground arith)
]

registers-on_door_position_changed :
    (c : Hcp2Codec) (old val : ℕ) → (on_door_position_changed c old val).reg_resp ≡ c.reg_resp
unfolding on_door_position_changed
registers-on_door_position_changed c old val = ground arith

registers-on_reg_seven_changed :
    (c : Hcp2Codec) (old val : ℕ) → (on_reg_seven_changed c old val).reg_resp ≡ c.reg_resp
unfolding on_reg_seven_changed
registers-on_reg_seven_changed c old val = ground arith

registers-write_bcast : (c : Hcp2Codec) (i val : ℕ) → (write_bcast c i val).reg_resp ≡ c.reg_resp
unfolding write_bcast
registers-write_bcast c i val =
    let old = get_or c.reg_bcast i 0 in
    let counted = record c { state_writes = u32 (c.state_writes + 1) } in
    ground (
      arith,
      registers-on_door_position_changed c old val,
      registers-on_current_state_changed c old val,
      registers-on_current_state_changed counted old val,
      registers-on_reg_seven_changed c old val,
    )

registers-write_bcasts :
    (left i : ℕ) (wdata : List ℕ) (c : Hcp2Codec)
    → (write_bcasts left i wdata c).reg_resp ≡ c.reg_resp
unfolding write_bcasts
registers-write_bcasts zero i wdata c = refl
registers-write_bcasts (suc left) i wdata c =
    registers-write_bcasts left (i + 1) wdata (write_bcast c i (rd16 wdata (2 * i)))
    ∙ registers-write_bcast c i (rd16 wdata (2 * i))

registers-hooked_broadcast :
    (c : Hcp2Codec) (now cnt : ℕ) → (on_request_hook c now 0x10 cnt 0 0).reg_resp ≡ c.reg_resp
unfolding on_request_hook mark_registered answer_other
registers-hooked_broadcast c now cnt = ground arith

registers-check_goto_target :
    (c : Hcp2Codec) (now : ℕ) → (check_goto_target c now).reg_resp ≡ c.reg_resp
unfolding check_goto_target stop_door
registers-check_goto_target c now = ground arith

registers-on_broadcast :
    (c : Hcp2Codec) (now : ℕ) (req : List ℕ) (len : ℕ)
    → (on_broadcast c now req len).0.reg_resp ≡ c.reg_resp
unfolding on_broadcast
registers-on_broadcast c now req len =
    let cnt = rd16 req 4 in
    let hooked = on_request_hook c now 0x10 cnt 0 0 in
    ground (
      arith,
      registers-check_goto_target (write_bcasts cnt 0 (drop 7 req) hooked) now,
      registers-write_bcasts cnt 0 (drop 7 req) hooked,
      registers-hooked_broadcast c now cnt,
    )

-- The registers after a frame.
pub IsWide-on_frame :
    (c : Hcp2Codec) (now : ℕ) (raw : List ℕ)
    → IsWide c.reg_resp
    → IsWide (on_frame c now raw).0.reg_resp
unfolding on_frame on_valid_frame notice_frame
IsWide-on_frame c now raw wide =
    let alive = notice_frame c now in
    let len = hcp2_validate raw in
    let broadcast =
      ap (λ (regs : List ℕ). length regs) (registers-on_broadcast alive now raw len) ∙ wide in
    ground (arith, wide, broadcast, on_read_write-noted alive now raw len wide)

-- An answer that presses a key answers a read/write frame.
pub carries-code :
    (c : Hcp2Codec) (now : ℕ) (raw : List ℕ)
    → (get_or raw 1 0 == 0x17) ≡ false
    → carries (on_frame c now raw).1 ≡ false
carries-code c now raw other = elim (on_frame-Answers c now raw) [
  | inl silent ↦ ap carries silent ∙ carries-silence
  | inr reply ↦ carries_code (on_frame c now raw).1 (ground (arith, other, reply))
]

-- What it presses is noted.
pub noted-on_frame :
    (c : Hcp2Codec) (now : ℕ) (raw : List ℕ)
    → IsWide c.reg_resp
    → get_or raw 1 0 ≡ 0x17
    → is_nothing (on_frame c now raw).0.last_sent_command ≡ true
    → carries (on_frame c now raw).1 ≡ false
unfolding on_frame on_valid_frame notice_frame
noted-on_frame c now raw wide code unsent =
    let alive = notice_frame c now in
    ground (
      arith,
      carries-silence,
      code,
      unsent,
      on_read_write-noted alive now raw (hcp2_validate raw) wide,
    )

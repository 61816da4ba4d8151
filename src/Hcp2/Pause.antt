-- ===== src/Hcp2/Pause.antt =====
-- A pause: what a paused codec does with its presses.
use esphome_hcpbridge.Base.{subst, sym, ◌∙◌, ◌⊎◌, [], true, ℕ, ◌≡◌, refl, arith, List, get_or, drop}
use esphome_hcpbridge.Base.{length, false, inl, inr, ap}
use esphome_hcpbridge.State.{HoermannCommand, nothing, is_nothing}
use esphome_hcpbridge.State.Laws.{is_nothing-nothing}
use esphome_hcpbridge.Hcp2.Wire.{carries, carries-silence}
use esphome_hcpbridge.Hcp2.Wire.Frames.{noted-on_frame}
use esphome_hcpbridge.Hcp2.Codec.{Hcp2Codec, rd16}
use esphome_hcpbridge.Hcp2.Watch.{sync_counter, rearm_lost_command}
use esphome_hcpbridge.Hcp2.Poll.{status_poll, answer_pause, on_request_hook, answer_other}
use esphome_hcpbridge.Hcp2.Frame.{
  notice_frame, serve_read_write, on_read_write, on_valid_frame, on_frame,
}
use esphome_hcpbridge.Hcp2.Presses.{Presses, presses, presses-mark_registered}
use esphome_hcpbridge.Hcp2.Budget.{presses-answer_other, presses-serve_read_write}

-- Nothing is said, and the slot is left as it was.
abbrev IsHeldBack : Presses → Presses → Type 0
IsHeldBack p q = (q.last ≡ nothing) × (q.slot ≡ p.slot) × (q.stamp ≡ p.stamp) × (q.pausing ≡ true)

on_request_hook-IsHeldBack :
    (c : Hcp2Codec) (now fc c1 c2 command : ℕ)
    → c.pause_requested ≡ true
    → c.last_sent_command ≡ nothing
    → IsHeldBack (presses c) (presses (on_request_hook c now fc c1 c2 command))
unfolding on_request_hook status_poll answer_pause
on_request_hook-IsHeldBack c now fc c1 c2 command held unsent = ground (
  arith,
  presses-mark_registered (answer_other c now fc c1 c2),
  presses-answer_other c now fc c1 c2,
)

sync_counter-IsHeldBack :
    (c : Hcp2Codec) (counter_byte command : ℕ)
    → let d = sync_counter c counter_byte command in
      (d.next_command ≡ c.next_command)
      × (d.next_command_on ≡ c.next_command_on)
      × (d.pause_requested ≡ c.pause_requested)
unfolding sync_counter rearm_lost_command
sync_counter-IsHeldBack c counter_byte command = ground arith

-- A read/write frame that is worked on during a pause.
pub paused-IsHeldBack :
    (c : Hcp2Codec) (now : ℕ) (req : List ℕ) (read_cnt write_cnt : ℕ)
    → c.pause_requested ≡ true
    → IsHeldBack (presses c) (presses (serve_read_write c now req read_cnt write_cnt).0)
paused-IsHeldBack c now req read_cnt write_cnt held =
    let wdata = drop 11 req in
    let counter = get_or wdata 0 0 in
    let command = get_or wdata 1 0 in
    let synced = sync_counter-IsHeldBack c counter command in
    subst (λ (p : Presses). IsHeldBack (presses c) p)
      (sym (presses-serve_read_write c now req read_cnt write_cnt))
      (ground (
        arith,
        synced,
        on_request_hook-IsHeldBack
            (record (sync_counter c counter command) { last_sent_command = nothing }) now 0x17
            read_cnt write_cnt command (synced.2 ∙ held) refl,
      ))

-- A read/write frame during a pause, by the note of what was sent.
pub on_frame_held :
    (c : Hcp2Codec) (now : ℕ) (raw : List ℕ)
    → c.pause_requested ≡ true
    → get_or raw 1 0 ≡ 0x17
    → let r = on_frame c now raw in
      ((r.1 ≡ []) ⊎ (r.0.last_sent_command ≡ nothing))
      × (r.0.next_command ≡ c.next_command)
      × (r.0.next_command_on ≡ c.next_command_on)
      × (r.0.pause_requested ≡ true)
unfolding on_frame on_valid_frame on_read_write notice_frame
on_frame_held c now raw held code =
    ground (arith, paused-IsHeldBack (notice_frame c now) now raw (rd16 raw 4) (rd16 raw 8) held)

-- On a codec that has its eight answer registers, while a pause is asked for: a read/write frame
-- is either not answered or answered with bytes that press no key, the waiting press and its
-- stamp stay as they are, and the pause goes on.
pub on_frame_paused :
    (c : Hcp2Codec) (now : ℕ) (raw : List ℕ)
    → c.pause_requested ≡ true
    → get_or raw 1 0 ≡ 0x17
    → length c.reg_resp ≡ 8
    → let r = on_frame c now raw in
      (carries r.1 ≡ false)
      × (r.0.next_command ≡ c.next_command)
      × (r.0.next_command_on ≡ c.next_command_on)
      × (r.0.pause_requested ≡ true)
on_frame_paused c now raw held code wide =
    let kept = on_frame_held c now raw held code in
    let quiet : carries (on_frame c now raw).1 ≡ false = elim kept.0 [
      | inl silent ↦ ap carries silent ∙ carries-silence
      | inr unsent ↦
          noted-on_frame c now raw wide code
            (ap (λ (k : HoermannCommand). is_nothing k) unsent ∙ is_nothing-nothing)
    ] in
    (quiet, kept.1, kept.2, kept.3)

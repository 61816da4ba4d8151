-- ===== src/Hcp1/Unaddressed.antt =====
-- A codec that the drive has not addressed, or that has gone silent, holds no press.
use esphome_hcpbridge.Base.{ℕ, ◌≡◌, inl, inr, true, Bool, ◌||◌, List, [], ◌∷◌, arith, Option-cases}
use esphome_hcpbridge.State.{
  HoermannCommand, is_nothing, set_link, registered, light_on, light_off, go_open, go_close,
}
use esphome_hcpbridge.State.Laws.{is_nothing-nothing}
use esphome_hcpbridge.Hcp1Frame.{Hcp1Frame, hcp1_parse}
use esphome_hcpbridge.Hcp1.Answers.{alive}
use esphome_hcpbridge.Hcp1.Presses.{
  Step, frame, opens, closes, toggles, halves, vents, stops, lights, positions, silence, step, run,
}
use esphome_hcpbridge.Hcp1.{
  Hcp1Codec, initial_codec, on_frame, on_parsed, answer_request, answer_status, answer_loaded,
  answer_scan, apply_broadcast, submit, open_door, close_door, impulse_door, half_position_door,
  ventilation_position_door, turn_light, set_position, stop_door, check_bus_silence,
}

-- Addressed, or with an empty slot.
abbrev pub may_wait : Hcp1Codec → Bool
may_wait c = c.addressed || is_nothing c.pending

submit-may_wait :
    (c : Hcp1Codec) (now : ℕ) (cmd : HoermannCommand)
    → may_wait c ≡ true
    → may_wait (submit c now cmd).0 ≡ true
unfolding submit
submit-may_wait c now cmd h = ground arith

apply_broadcast-may_wait :
    (c : Hcp1Codec) (now : ℕ) (payload : List ℕ)
    → may_wait (apply_broadcast c now payload) ≡ may_wait c
unfolding apply_broadcast
apply_broadcast-may_wait c now payload = ground arith

answer_status-may_wait :
    (c : Hcp1Codec) (now counter : ℕ)
    → may_wait c ≡ true
    → may_wait (answer_status c now counter).0 ≡ true
unfolding answer_status answer_loaded
answer_status-may_wait c now counter h = ground (arith, is_nothing-nothing)

on_parsed-may_wait :
    (c : Hcp1Codec) (now : ℕ) (f : Hcp1Frame)
    → may_wait c ≡ true
    → may_wait (on_parsed c now f).0 ≡ true
unfolding on_parsed answer_request answer_scan
on_parsed-may_wait c now f h = ground (
  arith,
  apply_broadcast-may_wait (alive c now) now f.payload,
  answer_status-may_wait (record (alive c now) { state = set_link (alive c now).state registered })
      now f.counter,
)

on_frame-may_wait :
    (c : Hcp1Codec) (now : ℕ) (buf : List ℕ)
    → may_wait c ≡ true
    → may_wait (on_frame c now buf).0 ≡ true
unfolding on_frame
on_frame-may_wait c now buf h = elim (Option-cases (hcp1_parse buf)) [
  | inl bad ↦ rw (bad, on_frame) h
  | inr (f, good) ↦ rw (good, on_frame) (on_parsed-may_wait c now f h)
]

step-may_wait : (c : Hcp1Codec) (s : Step) → may_wait c ≡ true → may_wait (step c s).after ≡ true
unfolding step open_door close_door impulse_door half_position_door ventilation_position_door
    turn_light set_position stop_door check_bus_silence
step-may_wait c (frame now buf) h = on_frame-may_wait c now buf h
step-may_wait c (opens now) h = submit-may_wait c now _ h
step-may_wait c (closes now) h = submit-may_wait c now _ h
step-may_wait c (toggles now) h = submit-may_wait c now _ h
step-may_wait c (halves now) h = submit-may_wait c now _ h
step-may_wait c (vents now) h = submit-may_wait c now _ h
step-may_wait c (stops now) h = ground arith
step-may_wait c (lights now on) h =
    ground (arith, submit-may_wait c now light_on h, submit-may_wait c now light_off h)
step-may_wait c (positions now percent) h =
    ground (arith, submit-may_wait c now go_open h, submit-may_wait c now go_close h)
step-may_wait c (silence now) h = ground (arith, is_nothing-nothing)

run-may_wait :
    (c : Hcp1Codec) (ss : List Step) → may_wait c ≡ true → may_wait (run c ss).after ≡ true
unfolding run
run-may_wait c [] h = h
run-may_wait c (s ∷ ss) h = run-may_wait (step c s).after ss (step-may_wait c s h)

-- From the constructor on, after any history of the older codec, it has been addressed or holds
-- no press.
pub may_wait_from_start : (ss : List Step) → may_wait (run initial_codec ss).after ≡ true
unfolding initial_codec
may_wait_from_start ss = run-may_wait initial_codec ss (ground (arith, is_nothing-nothing))

-- ===== src/Hcp1/Presses.antt =====
-- One press, one command: this bus has no delivery receipt, so nothing is ever sent again.
use esphome_hcpbridge.Base.{
  ℕ, ◌+◌, ◌≤◌, ◌≡◌, refl, inl, inr, Bool, List, [], ◌∷◌, arith, get_or, ◌==◌, if◌then◌else◌,
  Option-cases, not, ◌&&◌, ℤ,
}
use esphome_hcpbridge.State.{
  HoermannCommand, is_nothing, go_open, go_close, impulse, half, vent, light_on, light_off,
  set_link, registered,
}
use esphome_hcpbridge.State.Laws.{is_nothing-nothing}
use esphome_hcpbridge.Hcp1Frame.{
  Hcp1Frame, hcp1_parse, hcp1_build, hcp1_next_counter, hcp1_addr_master, hcp1_cmd_status_response,
  hcp1_type_uap1, hcp1_addr_self,
}
use esphome_hcpbridge.Hcp1Frame.RoundTrip.{hcp1_build_lem}
use esphome_hcpbridge.Hcp1.Answers.{alive}
use esphome_hcpbridge.Hcp1.{
  Hcp1Codec, on_frame, on_parsed, answer_request, answer_status, answer_scan, take_press,
  status_payload, apply_broadcast, submit, open_door, close_door, impulse_door, half_position_door,
  ventilation_position_door, turn_light, set_position, stop_door, check_bus_silence,
}

-- What happens to a codec: a frame arrives, somebody presses something, or the loop looks at the
-- clock.
pub data Step : Type 0 where
  frame : ℕ → List ℕ → Step
  opens closes toggles halves vents stops : ℕ → Step
  lights : ℕ → Bool → Step
  positions : ℕ → ℤ → Step
  silence : ℕ → Step

-- How many replies that ask the drive for something an answer is: one, if it is a status reply
-- whose command byte is set.
abbrev pub asks : List ℕ → ℕ
asks answer =
    if get_or answer 2 0 == hcp1_cmd_status_response && not (get_or answer 3 0 == 0) then 1 else 0

abbrev pub taken : Bool → ℕ
taken ok = if ok then 1 else 0

-- The presses that a codec still holds.
abbrev pub waiting : Hcp1Codec → ℕ
waiting c = if is_nothing c.pending then 0 else 1

-- The codec after a step, the presses that it accepted, and the requests that it sent.
pub record Outcome : Type 0 where
  pub after : Hcp1Codec
  pub accepted : ℕ
  pub sent : ℕ

abbrev pressed : Hcp1Codec × Bool → Outcome
pressed r = record { after = r.0; accepted = taken r.1; sent = 0 }

abbrev answered : Hcp1Codec × List ℕ → Outcome
answered r = record { after = r.0; accepted = 0; sent = asks r.1 }

unfoldable pub step : Hcp1Codec → Step → Outcome
step c (frame now buf) = answered (on_frame c now buf)
step c (opens now) = pressed (open_door c now)
step c (closes now) = pressed (close_door c now)
step c (toggles now) = pressed (impulse_door c now)
step c (halves now) = pressed (half_position_door c now)
step c (vents now) = pressed (ventilation_position_door c now)
step c (stops now) = pressed (stop_door c now)
step c (lights now on) = pressed (turn_light c now on)
step c (positions now percent) = pressed (set_position c now percent)
step c (silence now) = record { after = check_bus_silence c now; accepted = 0; sent = 0 }

unfoldable pub run : Hcp1Codec → List Step → Outcome
run c [] = record { after = c; accepted = 0; sent = 0 }
run c (s ∷ ss) =
    let first = step c s in
    let rest = run first.after ss in
    record {
      after = rest.after;
      accepted = first.accepted + rest.accepted;
      sent = first.sent + rest.sent;
    }

-- What is sent and still held has been accepted or was held before.
abbrev IsPaidFor : Hcp1Codec → Outcome → Type 0
IsPaidFor c o = o.sent + waiting o.after ≤ waiting c + o.accepted

submit-IsPaidFor :
    (c : Hcp1Codec) (now : ℕ) (cmd : HoermannCommand) → IsPaidFor c (pressed (submit c now cmd))
unfolding submit
submit-IsPaidFor c now cmd = ground arith

stop_door-IsPaidFor : (c : Hcp1Codec) (now : ℕ) → IsPaidFor c (pressed (stop_door c now))
unfolding stop_door
stop_door-IsPaidFor c now = ground arith

turn_light-IsPaidFor :
    (c : Hcp1Codec) (now : ℕ) (on : Bool) → IsPaidFor c (pressed (turn_light c now on))
unfolding turn_light
turn_light-IsPaidFor c now on =
    ground (arith, submit-IsPaidFor c now light_on, submit-IsPaidFor c now light_off)

set_position-IsPaidFor :
    (c : Hcp1Codec) (now : ℕ) (percent : ℤ) → IsPaidFor c (pressed (set_position c now percent))
unfolding set_position open_door close_door
set_position-IsPaidFor c now percent =
    ground (arith, submit-IsPaidFor c now go_open, submit-IsPaidFor c now go_close)

check_bus_silence-waiting :
    (c : Hcp1Codec) (now : ℕ) → waiting (check_bus_silence c now) ≤ waiting c
unfolding check_bus_silence
check_bus_silence-waiting c now = ground (arith, is_nothing-nothing)

pending-apply_broadcast :
    (c : Hcp1Codec) (now : ℕ) (payload : List ℕ)
    → (apply_broadcast c now payload).pending ≡ c.pending
unfolding apply_broadcast
pending-apply_broadcast c now payload = ground arith

asks-build :
    (counter byte : ℕ)
    → asks (hcp1_build 16 hcp1_addr_master (hcp1_next_counter counter) (status_payload byte))
      ≡ (if byte == 0 then 0 else 1)
unfolding status_payload
asks-build counter byte =
    rw
      (hcp1_build_lem 16 hcp1_addr_master (hcp1_next_counter counter) (status_payload byte)
        (omega arith) (omega arith))
      (ground arith)

asks-answer_scan : (counter : ℕ) → asks (answer_scan counter) ≡ 0
unfolding answer_scan
asks-answer_scan counter =
    rw
      (hcp1_build_lem 16 hcp1_addr_master (hcp1_next_counter counter)
        (hcp1_type_uap1 ∷ hcp1_addr_self ∷ []) (omega arith) (omega arith))
      refl

answer_status-IsPaidFor :
    (c : Hcp1Codec) (now counter : ℕ) → IsPaidFor c (answered (answer_status c now counter))
unfolding answer_status
answer_status-IsPaidFor c now counter = ground (
  arith,
  is_nothing-nothing,
  asks-build counter 0,
  asks-build counter (take_press c now c.pending).1,
)

answer_request-IsPaidFor :
    (c : Hcp1Codec) (now : ℕ) (f : Hcp1Frame) → IsPaidFor c (answered (answer_request c now f))
unfolding answer_request
answer_request-IsPaidFor c now f = ground (
  arith,
  asks-answer_scan f.counter,
  answer_status-IsPaidFor (record c { state = set_link c.state registered }) now f.counter,
)

on_parsed-IsPaidFor :
    (c : Hcp1Codec) (now : ℕ) (f : Hcp1Frame) → IsPaidFor c (answered (on_parsed c now f))
unfolding on_parsed
on_parsed-IsPaidFor c now f = ground (
  arith,
  pending-apply_broadcast (alive c now) now f.payload,
  answer_request-IsPaidFor (alive c now) now f,
)

on_frame-IsPaidFor :
    (c : Hcp1Codec) (now : ℕ) (buf : List ℕ) → IsPaidFor c (answered (on_frame c now buf))
unfolding on_frame
on_frame-IsPaidFor c now buf = elim (Option-cases (hcp1_parse buf)) [
  | inl bad ↦ rw (bad, on_frame) (omega arith)
  | inr (f, good) ↦ rw (good, on_frame) (on_parsed-IsPaidFor c now f)
]

step-IsPaidFor : (c : Hcp1Codec) (s : Step) → IsPaidFor c (step c s)
unfolding step
step-IsPaidFor c (frame now buf) = on_frame-IsPaidFor c now buf
step-IsPaidFor c (opens now) = unfold open_door in submit-IsPaidFor c now go_open
step-IsPaidFor c (closes now) = unfold close_door in submit-IsPaidFor c now go_close
step-IsPaidFor c (toggles now) = unfold impulse_door in submit-IsPaidFor c now impulse
step-IsPaidFor c (halves now) = unfold half_position_door in submit-IsPaidFor c now half
step-IsPaidFor c (vents now) = unfold ventilation_position_door in submit-IsPaidFor c now vent
step-IsPaidFor c (stops now) = stop_door-IsPaidFor c now
step-IsPaidFor c (lights now on) = turn_light-IsPaidFor c now on
step-IsPaidFor c (positions now percent) = set_position-IsPaidFor c now percent
step-IsPaidFor c (silence now) = omega (arith, check_bus_silence-waiting c now)

-- Over any history of the older codec, the requests that went to the drive, and the press that
-- still waits, are at most the presses that were accepted, and one more if a press was waiting at
-- the start. A press is never sent twice.
pub sent_le_accepted : (c : Hcp1Codec) (ss : List Step) → IsPaidFor c (run c ss)
unfolding run
sent_le_accepted c [] = omega arith
sent_le_accepted c (s ∷ ss) =
    omega (arith, step-IsPaidFor c s, sent_le_accepted (step c s).after ss)

-- ===== src/Hcp2/Runs.antt =====
-- Whole runs of the codec: frames, presses and the other calls, in any order.
pub mod Stops
use esphome_hcpbridge.Base.{
  sym, subst, true, Bool, ℕ, ◌+◌, ◌*◌, ◌≤◌, ◌≡◌, ◌∙◌, same, ℤ, ◌&&◌, ◌||◌, not, ◌==◌, ltb, arith,
  if◌then◌else◌, List, [], ◌∷◌, get_or, drop, length,
}
use esphome_hcpbridge.State.{
  HoermannCommand, go_open, go_close, impulse, half, vent, light_on, light_off,
}
use esphome_hcpbridge.State.Laws.{is_nothing-nothing, is_nothing-stop}
use esphome_hcpbridge.Capabilities.{HcpCapabilities}
use esphome_hcpbridge.Hcp2Frame.{hcp2_validate}
use esphome_hcpbridge.Hcp2.Codec.{
  Hcp2Codec, initial_codec, request_pause, end_pause, drop_queued_command, rd16, reg_bcast_base,
}
use esphome_hcpbridge.Hcp2.Commands.{
  set_command, stop_door, open_door, close_door, impulse_door, half_position_door,
  ventilation_position_door, turn_light, set_position, check_bus_silence,
}
use esphome_hcpbridge.Hcp2.Poll.{on_request_hook, answer_other}
use esphome_hcpbridge.Hcp2.Broadcast.{goto_arrived, check_goto_target, write_bcasts}
use esphome_hcpbridge.Hcp2.Frame.{
  notice_frame, broadcast_fits, on_read_write, on_broadcast, on_valid_frame, on_frame,
}
use esphome_hcpbridge.Hcp2.Identity.{publish_identity}
use esphome_hcpbridge.Hcp2.Presses.{
  presses, presses-notice_frame, presses-write_bcasts, presses-mark_registered,
}
use esphome_hcpbridge.Base.{false, refl}
use esphome_hcpbridge.Hcp2.Wire.{carries, carries-empty}
use esphome_hcpbridge.Hcp2.Wire.Registers.{IsWide}
use esphome_hcpbridge.Hcp2.Wire.Frames.{IsWide-on_frame, carries-code, noted-on_frame}
use esphome_hcpbridge.Hcp2.Repeats.{IsSmall, credit, per_press, sendings}
use esphome_hcpbridge.Hcp2.Budget.{serve_read_write-Pays, presses-answer_other}
use esphome_hcpbridge.Hcp2.OwnStop.{own_stop, on_broadcast-Pays, on_read_write-Pays}

-- What happens to a codec: a frame arrives, somebody presses something, the loop looks at the clock
-- or hands the identity on, and a restart asks for a pause.
pub data Step : Type 0 where
  frame : ℕ → List ℕ → Step
  opens closes toggles halves vents stops : ℕ → Step
  lights : ℕ → Bool → Step
  positions : ℕ → ℤ → Step
  silence : ℕ → Step
  pauses resumes drops publishes : Step

-- The codec after a step, the presses that it accepted (its own stop at a target is one of them),
-- and the answers that press a key on the drive.
pub record Outcome : Type 0 where
  pub after : Hcp2Codec
  pub accepted : ℕ
  pub sent : ℕ

abbrev count : Bool → ℕ
count ok = if ok then 1 else 0

abbrev pressed : Hcp2Codec × Bool → Outcome
pressed r = record { after = r.0; accepted = count r.1; sent = 0 }

abbrev quiet : Hcp2Codec → Outcome
quiet c = record { after = c; accepted = 0; sent = 0 }

-- A frame: its answer presses a key or not, as its bytes say.
abbrev framed : Hcp2Codec → ℕ → List ℕ → Outcome
framed c now raw =
    let r = on_frame c now raw in
    let len = hcp2_validate raw in
    record {
      after = r.0;
      accepted =
          count
            (not (len == 0) && get_or raw 1 0 == 0x10 && own_stop (notice_frame c now) now raw len);
      sent = if carries r.1 then 1 else 0;
    }

unfoldable pub step : Hcp2Codec → Step → Outcome
step c (frame now raw) = framed c now raw
step c (opens now) = pressed (open_door c now)
step c (closes now) = pressed (close_door c now)
step c (toggles now) = pressed (impulse_door c now)
step c (halves now) = pressed (half_position_door c now)
step c (vents now) = pressed (ventilation_position_door c now)
step c (stops now) = pressed (stop_door c now)
step c (lights now on) = pressed (turn_light c now on)
step c (positions now percent) = pressed (set_position c now percent)
step c (silence now) = quiet (check_bus_silence c now)
step c pauses = quiet (request_pause c)
step c resumes = quiet (end_pause c)
step c drops = quiet (drop_queued_command c)
step c publishes = quiet (publish_identity c)

unfoldable pub run : Hcp2Codec → List Step → Outcome
run c [] = record { after = c; accepted = 0; sent = 0 }
run c (s ∷ ss) =
    let first = step c s in
    let rest = run first.after ss in
    record {
      after = rest.after;
      accepted = first.accepted + rest.accepted;
      sent = first.sent + rest.sent;
    }

-- What was sent, and may still be, has been paid for by the presses that were accepted.
abbrev pub IsPaidFor : Hcp2Codec → Outcome → Type 0
IsPaidFor c o =
    (o.sent + credit (presses o.after) ≤ credit (presses c) + o.accepted * per_press c.caps)
    × (o.after.caps ≡ c.caps)

-- By the note of what was sent, a frame is paid for.
noted_frame-IsPaidFor :
    (c : Hcp2Codec) (now : ℕ) (raw : List ℕ)
    → IsSmall c.caps
    → IsPaidFor c (record (framed c now raw) {
      sent =
          if get_or raw 1 0 == 0x17 && not (length (on_frame c now raw).1 == 0)
          then sendings (presses (on_frame c now raw).0)
          else 0;
    })
unfolding on_frame on_valid_frame notice_frame
noted_frame-IsPaidFor c now raw small =
    let alive = notice_frame c now in
    let len = hcp2_validate raw in
    ground (
      arith,
      presses-notice_frame c now,
      on_read_write-Pays alive now raw len small,
      on_broadcast-Pays alive now raw len,
    )

carries-silent :
    (c : Hcp2Codec) (now : ℕ) (raw : List ℕ)
    → (length (on_frame c now raw).1 == 0) ≡ true
    → carries (on_frame c now raw).1 ≡ false
carries-silent c now raw silent = carries-empty (on_frame c now raw).1 silent

framed-IsPaidFor :
    (c : Hcp2Codec) (now : ℕ) (raw : List ℕ)
    → IsSmall c.caps
    → IsWide c.reg_resp
    → IsPaidFor c (framed c now raw)
framed-IsPaidFor c now raw small wide = ground (
  arith,
  noted_frame-IsPaidFor c now raw small,
  carries-code c now raw,
  carries-silent c now raw,
  noted-on_frame c now raw wide,
)

set_command-IsPaidFor :
    (c : Hcp2Codec) (now : ℕ) (wanted : Bool) (command : HoermannCommand)
    → IsPaidFor c (pressed (set_command c now wanted command))
unfolding set_command
set_command-IsPaidFor c now wanted command = ground arith

stop_door-IsPaidFor : (c : Hcp2Codec) (now : ℕ) → IsPaidFor c (pressed (stop_door c now))
unfolding stop_door
stop_door-IsPaidFor c now = ground arith

set_position-IsPaidFor :
    (c : Hcp2Codec) (now : ℕ) (percent : ℤ) → IsPaidFor c (pressed (set_position c now percent))
unfolding set_position open_door close_door
set_position-IsPaidFor c now percent =
    ground
      (arith, set_command-IsPaidFor c now true go_open, set_command-IsPaidFor c now true go_close)

check_bus_silence-IsPaidFor :
    (c : Hcp2Codec) (now : ℕ) → IsPaidFor c (quiet (check_bus_silence c now))
unfolding check_bus_silence
check_bus_silence-IsPaidFor c now = ground (arith, is_nothing-nothing)

registers-set_command :
    (c : Hcp2Codec) (now : ℕ) (wanted : Bool) (command : HoermannCommand)
    → (set_command c now wanted command).0.reg_resp ≡ c.reg_resp
unfolding set_command
registers-set_command c now wanted command = ground arith

IsWide-step : (c : Hcp2Codec) (s : Step) → IsWide c.reg_resp → IsWide (step c s).after.reg_resp
unfolding step open_door close_door impulse_door half_position_door ventilation_position_door
    turn_light stop_door set_position check_bus_silence request_pause end_pause drop_queued_command
    publish_identity
IsWide-step c (frame now raw) wide = IsWide-on_frame c now raw wide
IsWide-step c (opens now) wide = ground (arith, wide, registers-set_command c now true go_open)
IsWide-step c (closes now) wide = ground (arith, wide, registers-set_command c now true go_close)
IsWide-step c (toggles now) wide = ground (arith, wide, registers-set_command c now true impulse)
IsWide-step c (halves now) wide = ground (arith, wide, registers-set_command c now true half)
IsWide-step c (vents now) wide = ground (arith, wide, registers-set_command c now true vent)
IsWide-step c (stops now) wide = ground (arith, wide)
IsWide-step c (lights now on) wide = ground (
  arith,
  wide,
  registers-set_command c now (not (same on c.state.lamp)) (if on then light_on else light_off),
)
IsWide-step c (positions now percent) wide = ground (
  arith,
  wide,
  registers-set_command c now true go_open,
  registers-set_command c now true go_close,
)
IsWide-step c (silence now) wide = ground (arith, wide)
IsWide-step c pauses wide = wide
IsWide-step c resumes wide = wide
IsWide-step c drops wide = wide
IsWide-step c publishes wide = wide

step-IsPaidFor :
    (c : Hcp2Codec) (s : Step) → IsSmall c.caps → IsWide c.reg_resp → IsPaidFor c (step c s)
unfolding step open_door close_door impulse_door half_position_door ventilation_position_door
    turn_light request_pause end_pause drop_queued_command publish_identity
step-IsPaidFor c (frame now raw) small wide = framed-IsPaidFor c now raw small wide
step-IsPaidFor c (opens now) small wide = set_command-IsPaidFor c now true go_open
step-IsPaidFor c (closes now) small wide = set_command-IsPaidFor c now true go_close
step-IsPaidFor c (toggles now) small wide = set_command-IsPaidFor c now true impulse
step-IsPaidFor c (halves now) small wide = set_command-IsPaidFor c now true half
step-IsPaidFor c (vents now) small wide = set_command-IsPaidFor c now true vent
step-IsPaidFor c (stops now) small wide = stop_door-IsPaidFor c now
step-IsPaidFor c (lights now on) small wide =
    set_command-IsPaidFor c now (not (same on c.state.lamp)) (if on then light_on else light_off)
step-IsPaidFor c (positions now percent) small wide = set_position-IsPaidFor c now percent
step-IsPaidFor c (silence now) small wide = check_bus_silence-IsPaidFor c now
step-IsPaidFor c pauses small wide = ground arith
step-IsPaidFor c resumes small wide = ground arith
step-IsPaidFor c drops small wide = ground (arith, is_nothing-nothing)
step-IsPaidFor c publishes small wide = ground arith

-- Two bills, one after the other.
add_bills :
    (w a b s t x y z : ℕ) → s + y ≤ x + a * w → t + z ≤ y + b * w → (s + t) + z ≤ x + (a + b) * w
add_bills w a b s t x y z first second = ground arith

-- Over any sequence of frames, presses, stops, light and position requests, silence checks,
-- pauses, dropped presses and identity hand-overs, from any codec that has its eight answer
-- registers and whose two repeat limits are bytes: the answers whose bytes press a key on the
-- drive, and the credit that is left at the end, are together at most the credit at the start
-- and, for each press that was accepted (the codec's own stop at a target is one), one sending
-- and the repeats that the limits allow. The limits stay as they were.
pub run-IsPaidFor :
    (c : Hcp2Codec) (steps : List Step)
    → IsSmall c.caps
    → IsWide c.reg_resp
    → IsPaidFor c (run c steps)
unfolding run
run-IsPaidFor c [] small wide = ground arith
run-IsPaidFor c (s ∷ ss) small wide =
    let first = step-IsPaidFor c s small wide in
    let next = (step c s).after in
    let rest =
      run-IsPaidFor next ss (subst (λ (l : HcpCapabilities). IsSmall l) (sym first.1) small)
        (IsWide-step c s wide) in
    (
      add_bills (per_press c.caps) (step c s).accepted (run next ss).accepted (step c s).sent
          (run next ss).sent (credit (presses c)) (credit (presses next))
          (credit (presses (run next ss).after)) first.0
          (subst
            (λ (l : HcpCapabilities).
              (run next ss).sent + credit (presses (run next ss).after)
              ≤ credit (presses next) + (run next ss).accepted * per_press l)
            first.1 rest.0),
      rest.1 ∙ first.1,
    )

-- From the constructor on, over any sequence of frames, presses and the other calls: the answers
-- whose bytes press a key on the drive are at most five for each press that was accepted.
pub sent_from_start :
    (steps : List Step) → let o = run initial_codec steps in o.sent ≤ 5 * o.accepted
unfolding initial_codec
sent_from_start steps = ground (
  arith,
  run-IsPaidFor initial_codec steps (record { resends = ground arith; confirms = ground arith })
      refl,
  is_nothing-nothing,
)

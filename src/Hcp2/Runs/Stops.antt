-- ===== src/Hcp2/Runs/Stops.antt =====
-- No run puts a stop onto the wire.
use esphome_hcpbridge.Base.{true, false, Bool, ℕ, ◌≡◌, arith, List, [], ◌∷◌}
use esphome_hcpbridge.State.{HoermannCommand, is_stop, go_open, go_close}
use esphome_hcpbridge.State.Laws.{is_stop-nothing}
use esphome_hcpbridge.Hcp2.Codec.{
  Hcp2Codec, initial_codec, request_pause, end_pause, drop_queued_command,
}
use esphome_hcpbridge.Hcp2.Commands.{
  set_command, stop_door, open_door, close_door, impulse_door, half_position_door,
  ventilation_position_door, turn_light, set_position, check_bus_silence,
}
use esphome_hcpbridge.Hcp2.Identity.{publish_identity}
use esphome_hcpbridge.Hcp2.Presses.{presses}
use esphome_hcpbridge.Hcp2.NoStop.{NoStop, on_frame-NoStop}
use esphome_hcpbridge.Hcp2.Runs.{
  Step, frame, opens, closes, toggles, halves, vents, stops, lights, positions, silence, pauses,
  resumes, drops, publishes, step, run,
}

set_command-NoStop :
    (c : Hcp2Codec) (now : ℕ) (wanted : Bool) (command : HoermannCommand)
    → NoStop (presses c)
    → NoStop (presses (set_command c now wanted command).0)
unfolding set_command
set_command-NoStop c now wanted command h = ground (arith, h.awaited, h.armed, h.last)

step-NoStop : (c : Hcp2Codec) (s : Step) → NoStop (presses c) → NoStop (presses (step c s).after)
unfolding step open_door close_door impulse_door half_position_door ventilation_position_door
    turn_light set_position stop_door check_bus_silence request_pause end_pause drop_queued_command
    publish_identity
step-NoStop c (frame now raw) h = on_frame-NoStop c now raw h
step-NoStop c (positions now percent) h = ground (
  arith,
  h.awaited,
  h.armed,
  h.last,
  set_command-NoStop c now true go_open h,
  set_command-NoStop c now true go_close h,
)
step-NoStop c (stops now) h = ground (arith, h.awaited, h.armed, h.last)
step-NoStop c (silence now) h = ground (arith, h.awaited, h.armed, h.last)
step-NoStop c pauses h = record { awaited = h.awaited; armed = h.armed; last = h.last }
step-NoStop c resumes h = record { awaited = h.awaited; armed = h.armed; last = h.last }
step-NoStop c drops h = record { awaited = h.awaited; armed = h.armed; last = h.last }
step-NoStop c publishes h = record { awaited = h.awaited; armed = h.armed; last = h.last }
step-NoStop c (opens now) h = set_command-NoStop c now true _ h
step-NoStop c (closes now) h = set_command-NoStop c now true _ h
step-NoStop c (toggles now) h = set_command-NoStop c now true _ h
step-NoStop c (halves now) h = set_command-NoStop c now true _ h
step-NoStop c (vents now) h = set_command-NoStop c now true _ h
step-NoStop c (lights now on) h = set_command-NoStop c now _ _ h

run-NoStop :
    (c : Hcp2Codec) (steps : List Step) → NoStop (presses c) → NoStop (presses (run c steps).after)
unfolding run
run-NoStop c [] h = h
run-NoStop c (s ∷ ss) h = run-NoStop (step c s).after ss (step-NoStop c s h)

-- From the constructor on, no sequence of frames, presses and other calls makes a stop the
-- command that was last sent.
pub never_sends_stop :
    (steps : List Step) → is_stop (run initial_codec steps).after.last_sent_command ≡ false
unfolding initial_codec
never_sends_stop steps =
    (run-NoStop initial_codec steps
      (record { awaited = is_stop-nothing; armed = is_stop-nothing; last = is_stop-nothing })).last

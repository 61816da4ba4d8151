-- ===== src/Hcp2/Changed/Histories.antt =====
-- The flag that something has changed, over broadcasts and whole histories of the codec.
use esphome_hcpbridge.Base.{
  ℕ, zero, suc, ◌+◌, ◌*◌, refl, true, not, List, arith, get_or, drop, if◌then◌else◌, same, inl, inr,
  u32, Option-cases,
}
use esphome_hcpbridge.State.{
  go_open, go_close, impulse, half, vent, light_on, light_off, set_current_position,
  set_target_position, set_state, set_actuator_error, set_relay_on, set_light_on,
}
use esphome_hcpbridge.Hcp2Frame.{hcp2_validate}
use esphome_hcpbridge.Hcp2.Codec.{Hcp2Codec, rd16, request_pause, end_pause, drop_queued_command}
use esphome_hcpbridge.Hcp2.Commands.{
  open_door, close_door, impulse_door, half_position_door, ventilation_position_door, turn_light,
}
use esphome_hcpbridge.Hcp2.Poll.{on_request_hook}
use esphome_hcpbridge.Hcp2.Broadcast.{
  write_bcast, write_bcasts, check_goto_target, on_door_position_changed, on_current_state_changed,
  on_reg_seven_changed, decode_state,
}
use esphome_hcpbridge.Hcp2.Frame.{notice_frame, on_broadcast, on_valid_frame, on_frame}
use esphome_hcpbridge.Hcp2.Changed.{
  Quiet, then-Quiet, Quiet-set_command, Quiet-stop_door, Quiet-set_position,
  Quiet-check_bus_silence, Quiet-publish_identity, Quiet-on_request_hook,
}
use esphome_hcpbridge.Hcp2.Changed.Frames.{
  Quiet-on_read_write, Quiet-notice_frame, Quiet-check_goto_target,
}
use esphome_hcpbridge.Hcp2.Runs.{
  Step, frame, opens, closes, toggles, halves, vents, stops, lights, positions, silence, pauses,
  resumes, drops, publishes, step,
}

Quiet-on_current_state_changed :
    (c : Hcp2Codec) (old val : ℕ) → Quiet c (on_current_state_changed c old val)
unfolding on_current_state_changed set_state
Quiet-on_current_state_changed c old val = elim (Option-cases (decode_state val)) [
  | inl unknown ↦ rw unknown (ground arith)
  | inr (d, known) ↦ rw known (ground arith)
]

Quiet-on_door_position_changed :
    (c : Hcp2Codec) (old val : ℕ) → Quiet c (on_door_position_changed c old val)
unfolding on_door_position_changed set_current_position set_target_position
Quiet-on_door_position_changed c old val = ground arith

Quiet-on_reg_seven_changed :
    (c : Hcp2Codec) (old val : ℕ) → Quiet c (on_reg_seven_changed c old val)
unfolding on_reg_seven_changed set_actuator_error set_relay_on set_light_on
Quiet-on_reg_seven_changed c old val = ground arith

Quiet-write_bcast : (c : Hcp2Codec) (i val : ℕ) → Quiet c (write_bcast c i val)
unfolding write_bcast
Quiet-write_bcast c i val =
    let old = get_or c.reg_bcast i 0 in
    let counted = record c { state_writes = u32 (c.state_writes + 1) } in
    ground (
      arith,
      Quiet-on_door_position_changed c old val,
      Quiet-on_current_state_changed c old val,
      Quiet-on_current_state_changed counted old val,
      Quiet-on_reg_seven_changed c old val,
    )

Quiet-write_bcasts :
    (left i : ℕ) (wdata : List ℕ) (c : Hcp2Codec) → Quiet c (write_bcasts left i wdata c)
unfolding write_bcasts
Quiet-write_bcasts zero i wdata c = λ same. (same, refl, refl)
Quiet-write_bcasts (suc left) i wdata c =
    let next = write_bcast c i (rd16 wdata (2 * i)) in
    then-Quiet c next (write_bcasts left (i + 1) wdata next)
      (Quiet-write_bcasts left (i + 1) wdata next) (Quiet-write_bcast c i (rd16 wdata (2 * i)))

Quiet-on_broadcast :
    (c : Hcp2Codec) (now : ℕ) (req : List ℕ) (len : ℕ) → Quiet c (on_broadcast c now req len).0
unfolding on_broadcast
Quiet-on_broadcast c now req len =
    let cnt = rd16 req 4 in
    let hooked = on_request_hook c now 0x10 cnt 0 0 in
    let written = write_bcasts cnt 0 (drop 7 req) hooked in
    ground (
      arith,
      then-Quiet c written (check_goto_target written now) (Quiet-check_goto_target written now) (
          then-Quiet c hooked written (Quiet-write_bcasts cnt 0 (drop 7 req) hooked)
            (Quiet-on_request_hook c now 0x10 cnt 0 0)),
    )

Quiet-on_frame : (c : Hcp2Codec) (now : ℕ) (raw : List ℕ) → Quiet c (on_frame c now raw).0
unfolding on_frame on_valid_frame
Quiet-on_frame c now raw =
    let alive = notice_frame c now in
    let len = hcp2_validate raw in
    ground (
      arith,
      Quiet-notice_frame c now,
      Quiet-on_read_write alive now raw len,
      Quiet-on_broadcast alive now raw len,
    )

pub Quiet-step : (c : Hcp2Codec) (s : Step) → Quiet c (step c s).after
unfolding step open_door close_door impulse_door half_position_door ventilation_position_door
    turn_light request_pause end_pause drop_queued_command
Quiet-step c (frame now raw) = Quiet-on_frame c now raw
Quiet-step c (opens now) = Quiet-set_command c now true go_open
Quiet-step c (closes now) = Quiet-set_command c now true go_close
Quiet-step c (toggles now) = Quiet-set_command c now true impulse
Quiet-step c (halves now) = Quiet-set_command c now true half
Quiet-step c (vents now) = Quiet-set_command c now true vent
Quiet-step c (stops now) = Quiet-stop_door c now
Quiet-step c (lights now on) =
    Quiet-set_command c now (not (same on c.state.lamp)) (if on then light_on else light_off)
Quiet-step c (positions now percent) = Quiet-set_position c now percent
Quiet-step c (silence now) = Quiet-check_bus_silence c now
Quiet-step c pauses = λ same. (same, refl, refl)
Quiet-step c resumes = λ same. (same, refl, refl)
Quiet-step c drops = λ same. (same, refl, refl)
Quiet-step c publishes = Quiet-publish_identity c

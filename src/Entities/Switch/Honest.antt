-- ===== src/Entities/Switch/Honest.antt =====
-- A switch over the newer bus does not show a state that the door is not in.
use esphome_hcpbridge.Base.{
  ℕ, ◌≡◌, inl, inr, refl, Bool, true, false, not, ◌&&◌, ◌||◌, if◌then◌else◌, [], ◌∷◌, Bool-cases,
}
use esphome_hcpbridge.State.{HoermannCommand, half, vent, go_close, closed, same_door}
use esphome_hcpbridge.Hcp2.Codec.{Hcp2Codec}
use esphome_hcpbridge.HcpBus.{hcp2_bus}
use esphome_hcpbridge.HcpBus.Taken.{
  free, Took, close_door-Took, half_position_door-Took, ventilation_position_door-Took,
}
use esphome_hcpbridge.Entities.Switch.{
  SwitchType, switch_vent, switch_half, next_unknown, shows, at_target, send_open, report_dropped,
  command_dropped, write_state,
}

-- What a switch asks for.
unfoldable pub asked : SwitchType → Bool → HoermannCommand
asked switch_half true = half
asked switch_vent true = vent
asked t false = go_close

-- Whether the door is where it is asked to go.
abbrev pub is_there : SwitchType → Bool → Hcp2Codec → Bool
is_there t on c = if on then at_target t c.state else same_door c.state.door closed

send_open-Took :
    (t : SwitchType) (c : Hcp2Codec) (now : ℕ)
    → Took (free c) (asked t true) c (send_open hcp2_bus t c now)
unfolding send_open asked
send_open-Took switch_half c now = half_position_door-Took c now
send_open-Took switch_vent c now = ventilation_position_door-Took c now

close_door-Took-asked :
    (t : SwitchType) (c : Hcp2Codec) (now : ℕ)
    → Took (free c) (asked t false) c (hcp2_bus.close_door c now)
unfolding asked
close_door-Took-asked switch_half c now = close_door-Took c now
close_door-Took-asked switch_vent c now = close_door-Took c now

-- What is left of a command that was sent or refused.
report_dropped-Took :
    (t : SwitchType) (ok here : Bool) (cmd : HoermannCommand) (c : Hcp2Codec) (r : Hcp2Codec × Bool)
    → at_target t c.state ≡ here
    → Took ok cmd c r
    → let shown = report_dropped hcp2_bus t r in
      (shown.1 ≡ (if ok then [] else next_unknown ∷ shows here ∷ []))
      × (shown.0.next_command ≡ (if ok then cmd else c.next_command))
      × (shown.0.state ≡ c.state)
unfolding report_dropped command_dropped
report_dropped-Took t ok here cmd c r stands took = elim (Bool-cases ok) [
  | inl sent ↦ (rw (took.answer, sent) refl, took.slot, took.state)
  | inr dropped ↦ (rw (took.answer, dropped, took.state, stands) refl, took.slot, took.state)
]

-- Over the newer bus: a switch whose door is where it is asked to go presses nothing and shows
-- nothing. Else, if the codec is registered, not paused and has an empty slot, the command is in
-- the slot and nothing is shown; if not, the slot is as it was and the switch shows whether the
-- door is at its target, past the filter of repeats. The door's state is as it was.
pub write_state_lem :
    (t : SwitchType) (c : Hcp2Codec) (now : ℕ) (on : Bool)
    → let r = write_state hcp2_bus t c now on in
      (r.1 ≡ (
        if is_there t on c || free c then [] else next_unknown ∷ shows (at_target t c.state) ∷ []))
      × (r.0.next_command
          ≡ (if not (is_there t on c) && free c then asked t on else c.next_command))
      × (r.0.state ≡ c.state)
unfolding write_state
write_state_lem t c now true = elim (Bool-cases (at_target t c.state)) [
  | inl already ↦ rw already (refl, refl, refl)
  | inr elsewhere ↦ rw elsewhere (
      report_dropped-Took t (free c) false (asked t true) c (send_open hcp2_bus t c now) elsewhere
        (send_open-Took t c now))
]
write_state_lem t c now false = elim (Bool-cases (same_door c.state.door closed)) [
  | inl already ↦ rw already (refl, refl, refl)
  | inr elsewhere ↦ rw elsewhere (
      report_dropped-Took t (free c) (at_target t c.state) (asked t false) c
        (hcp2_bus.close_door c now) refl (close_door-Took-asked t c now))
]

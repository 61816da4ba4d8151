-- ===== src/HcpBus/Taken.antt =====
-- components/hcpbridge/hcp_bus.h over the newer codec: what each command of the interface leaves.
use esphome_hcpbridge.Base.{ℕ, Bool, true, ◌≡◌, arith, not, ◌&&◌, if◌then◌else◌}
use esphome_hcpbridge.State.{
  HoermannCommand, is_nothing, impulse, half, vent, go_open, go_close, stop,
}
use esphome_hcpbridge.Hcp2.Codec.{Hcp2Codec}
use esphome_hcpbridge.Hcp2.Commands
use esphome_hcpbridge.HcpBus.{hcp2_bus}

-- Whether the codec takes a stop, and whether it takes any other press.
abbrev pub alive : Hcp2Codec → Bool
alive c = c.state.valid && not c.pause_requested

abbrev pub free : Hcp2Codec → Bool
free c = alive c && is_nothing c.next_command

-- A call that answers `ok` has put its command into the slot, or else left the slot alone, and has
-- left the door's state alone.
pub record Took (ok : Bool) (cmd : HoermannCommand) (c : Hcp2Codec) (r : Hcp2Codec × Bool)
    : Type 0 where
  pub answer : r.1 ≡ ok
  pub slot : r.0.next_command ≡ (if ok then cmd else c.next_command)
  pub state : r.0.state ≡ c.state

set_command-Took :
    (c : Hcp2Codec) (now : ℕ) (cmd : HoermannCommand)
    → Took (free c) cmd c (Commands.set_command c now true cmd)
unfolding Commands.set_command
set_command-Took c now cmd = record {
  answer = ground arith;
  slot = ground arith;
  state = ground arith;
}

pub open_door-Took : (c : Hcp2Codec) (now : ℕ) → Took (free c) go_open c (hcp2_bus.open_door c now)
unfolding Commands.open_door
open_door-Took c now = set_command-Took c now go_open

pub close_door-Took :
    (c : Hcp2Codec) (now : ℕ) → Took (free c) go_close c (hcp2_bus.close_door c now)
unfolding Commands.close_door
close_door-Took c now = set_command-Took c now go_close

pub half_position_door-Took :
    (c : Hcp2Codec) (now : ℕ) → Took (free c) half c (hcp2_bus.half_position_door c now)
unfolding Commands.half_position_door
half_position_door-Took c now = set_command-Took c now half

pub ventilation_position_door-Took :
    (c : Hcp2Codec) (now : ℕ) → Took (free c) vent c (hcp2_bus.ventilation_position_door c now)
unfolding Commands.ventilation_position_door
ventilation_position_door-Took c now = set_command-Took c now vent

pub impulse_door-Took :
    (c : Hcp2Codec) (now : ℕ) → Took (free c) impulse c (hcp2_bus.impulse_door c now)
unfolding Commands.impulse_door
impulse_door-Took c now = set_command-Took c now impulse

pub stop_door-Took : (c : Hcp2Codec) (now : ℕ) → Took (alive c) stop c (hcp2_bus.stop_door c now)
unfolding Commands.stop_door
stop_door-Took c now = record { answer = ground arith; slot = ground arith; state = ground arith }

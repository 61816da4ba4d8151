-- ===== src/HcpBus.antt =====
-- components/hcpbridge/hcp_bus.h: what the component and the entities may ask of a bus, as an
-- interface over the codec behind it, and its two implementations. A command answers whether it
-- was taken.
pub mod Taken
use esphome_hcpbridge.Base.{ℕ, Bool, List, ℤ}
use esphome_hcpbridge.State.{HoermannState}
use esphome_hcpbridge.Ring.{HcpEventRing}
use esphome_hcpbridge.Hcp1
use esphome_hcpbridge.Hcp1.{Hcp1Codec}
use esphome_hcpbridge.Hcp2.Codec.{Hcp2Codec}
use esphome_hcpbridge.Hcp2.Commands
use esphome_hcpbridge.Hcp2.Identity

-- `B` is what the transport holds as its codec. `set_state` and `set_events` are the writes through
-- the pointers that `state` and `events` return.
pub record HcpBus {ℓ} (B : Type ℓ) : Type ℓ where
  pub open_door : B → ℕ → B × Bool
  pub close_door : B → ℕ → B × Bool
  pub impulse_door : B → ℕ → B × Bool
  pub half_position_door : B → ℕ → B × Bool
  pub ventilation_position_door : B → ℕ → B × Bool
  pub stop_door : B → ℕ → B × Bool
  pub turn_light : B → ℕ → Bool → B × Bool
  pub set_position : B → ℕ → ℤ → B × Bool
  pub check_bus_silence : B → ℕ → B
  pub publish_identity : B → B
  pub state : B → HoermannState
  pub set_state : B → HoermannState → B
  pub events : B → HcpEventRing
  pub set_events : B → HcpEventRing → B

-- `HcpBusOf<Hcp2Transport>`.
abbrev pub hcp2_bus : HcpBus Hcp2Codec
hcp2_bus = record {
  open_door = Commands.open_door;
  close_door = Commands.close_door;
  impulse_door = Commands.impulse_door;
  half_position_door = Commands.half_position_door;
  ventilation_position_door = Commands.ventilation_position_door;
  stop_door = Commands.stop_door;
  turn_light = Commands.turn_light;
  set_position = Commands.set_position;
  check_bus_silence = Commands.check_bus_silence;
  publish_identity = Identity.publish_identity;
  state = λ c. c.state;
  set_state = λ c s. record c { state = s };
  events = λ c. c.events;
  set_events = λ c r. record c { events = r };
}

-- `HcpBusOf<Hcp1Transport>`.
abbrev pub hcp1_bus : HcpBus Hcp1Codec
hcp1_bus = record {
  open_door = Hcp1.open_door;
  close_door = Hcp1.close_door;
  impulse_door = Hcp1.impulse_door;
  half_position_door = Hcp1.half_position_door;
  ventilation_position_door = Hcp1.ventilation_position_door;
  stop_door = Hcp1.stop_door;
  turn_light = Hcp1.turn_light;
  set_position = Hcp1.set_position;
  check_bus_silence = Hcp1.check_bus_silence;
  publish_identity = λ c. c;
  state = λ c. c.state;
  set_state = λ c s. record c { state = s };
  events = λ c. c.events;
  set_events = λ c r. record c { events = r };
}

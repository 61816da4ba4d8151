-- ===== src/Entities/Switch.antt =====
-- components/hcpbridge/switch/hcpbridge_switch.h and .cpp, `HCPBridgeSwitch`, and
-- components/hcpbridge/button/hcpbridge_button.h and .cpp, `HCPBridgeButton`.
pub mod Honest
use Prim.Native.String.{String}
use esphome_hcpbridge.Base.{ℕ, Bool, true, false, not, if◌then◌else◌, List, [], ◌∷◌}
use esphome_hcpbridge.State.{HoermannState, DoorState, closed, half_open, venting, same_door}
use esphome_hcpbridge.HcpBus.{HcpBus}

-- `HCPBridgeSwitchType`.
pub data SwitchType : Type 0 where
  switch_vent switch_half : SwitchType

-- The warning flag is of the base class.
pub record HcpBridgeSwitch : Type 0 where
  pub type_ : SwitchType
  pub warning : Bool

-- What a switch does to what Home Assistant is shown: `publish_dedup_.next_unknown()`, after which
-- a repeat is let through, and `publish_state`.
pub data Shown : Type 0 where
  next_unknown : Shown
  shows : Bool → Shown

unfoldable pub target_state : SwitchType → DoorState
target_state switch_half = half_open
target_state switch_vent = venting

unfoldable pub at_target : SwitchType → HoermannState → Bool
at_target t s = same_door s.door (target_state t)

unfoldable pub on_event_triggered : HcpBridgeSwitch → HoermannState → HcpBridgeSwitch × List Shown
on_event_triggered e s =
    if not s.valid
    then (record e { warning = true }, [])
    else (record e { warning = false }, shows (at_target e.type_ s) ∷ [])

module _ {ℓ} {B : Type ℓ} (bus : HcpBus B) where
  unfoldable pub command_dropped : SwitchType → B → List Shown
  command_dropped t b = next_unknown ∷ shows (at_target t (bus.state b)) ∷ []

  unfoldable pub send_open : SwitchType → B → ℕ → B × Bool
  send_open switch_half b now = bus.half_position_door b now
  send_open switch_vent b now = bus.ventilation_position_door b now

  -- What a command that was sent or refused shows.
  unfoldable pub report_dropped : SwitchType → B × Bool → B × List Shown
  unfolding command_dropped
  report_dropped t r = (r.0, if not r.1 then command_dropped t r.0 else [])

  unfoldable pub write_state : SwitchType → B → ℕ → Bool → B × List Shown
  unfolding send_open report_dropped at_target
  write_state t b now true =
      if at_target t (bus.state b) then (b, []) else report_dropped t (send_open t b now)
  write_state t b now false =
      if same_door (bus.state b).door closed
      then (b, [])
      else report_dropped t (bus.close_door b now)

-- `HCPBridgeButtonType`.
pub data ButtonType : Type 0 where
  button_impulse button_vent button_half : ButtonType

-- The warning of a press that was not taken names what was asked.
pub data PressLog : Type 0 where
  sent : PressLog
  dropped : String → PressLog

module _ {ℓ} {B : Type ℓ} (bus : HcpBus B) where
  unfoldable pub press_action : ButtonType → B → ℕ → B × PressLog
  press_action button_vent b now =
      let r = bus.ventilation_position_door b now in (r.0, if not r.1 then dropped "vent" else sent)
  press_action button_half b now =
      let r = bus.half_position_door b now in (r.0, if not r.1 then dropped "half open" else sent)
  press_action button_impulse b now =
      let r = bus.impulse_door b now in (r.0, if not r.1 then dropped "impulse" else sent)

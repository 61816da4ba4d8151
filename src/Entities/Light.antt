-- ===== src/Entities/Light.antt =====
-- components/hcpbridge/light/hcpbridge_light.h and .cpp, `HCPBridgeLight`, and
-- components/hcpbridge/output/hcpbridge_binary_output.h and .cpp, `HCPBridgeBinaryOutput`, through
-- which the light switches the drive's lamp. The light's state, its calls and the base class of the
-- output are ESPHome's, and arguments here.
pub mod Echo
use esphome_hcpbridge.Base.{ℕ, Bool, true, false, not, same, if◌then◌else◌, Option, none, some}
use esphome_hcpbridge.State.{HoermannState}
use esphome_hcpbridge.HcpBus.{HcpBus}

-- What the output did: the bus after, and whether it logged that the command was not given.
pub record Output {ℓ} (B : Type ℓ) : Type ℓ where
  pub bus : B
  pub refused : Bool

-- `HCPBridgeBinaryOutput::write_state`.
unfoldable pub output_write_state {ℓ} : {B : Type ℓ} → HcpBus B → B → ℕ → Bool → Output B
output_write_state bus b now on =
    let turned = bus.turn_light b now on in
    if not (same on (bus.state b).lamp)
    then record { bus = turned.0; refused = not turned.1 }
    else record { bus = b; refused = false }

-- `light::LightState`, and the `turn_on` and `turn_off` of `output::BinaryOutput` for our output.
pub record LightParts {ℓ ℓ'} (L : Type ℓ) (B : Type ℓ') : Type (ℓ ⊔ ℓ') where
  pub current_values_as_binary : L → Bool
  pub is_on : L → Bool
  pub perform_turn_on : L → L
  pub perform_turn_off : L → L
  pub output_turn_on : B → ℕ → B
  pub output_turn_off : B → ℕ → B

-- The light, its state if `setup_state` was called.
pub record HcpBridgeLight {ℓ} (L : Type ℓ) : Type ℓ where
  pub state : Option L
  pub saw_drive : Bool

module _ {ℓ ℓ'} {L : Type ℓ} {B : Type ℓ'} (bus : HcpBus B) (parts : LightParts L B) where
  -- `sync_from_drive` on the state it was given.
  unfoldable pub correct : L → Bool → L
  correct l drive_says_on =
      if same (parts.is_on l) drive_says_on
      then l
      else (if drive_says_on then parts.perform_turn_on l else parts.perform_turn_off l)

  unfoldable pub sync_from_drive : HcpBridgeLight L → B → HcpBridgeLight L
  unfolding correct
  sync_from_drive e b = elim e.state [
    | none ↦ e
    | some l ↦ record e { state = some (correct l (bus.state b).lamp) }
  ]

  unfoldable pub on_event_triggered : HcpBridgeLight L → B → HcpBridgeLight L
  unfolding sync_from_drive
  on_event_triggered e b =
      if not (bus.state b).valid then e else sync_from_drive (record e { saw_drive = true }) b

  -- `write_state` is handed the state of the call.
  unfoldable pub write_state : HcpBridgeLight L → B → ℕ → L → HcpBridgeLight L × B
  unfolding sync_from_drive
  write_state e b now l =
      let written =
        if parts.current_values_as_binary l
        then parts.output_turn_on b now
        else parts.output_turn_off b now in
      if not e.saw_drive
      then (e, b)
      else ((if not (bus.state written).valid then sync_from_drive e written else e), written)

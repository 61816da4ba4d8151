-- ===== src/Entities/Light/Echo.antt =====
-- A light that is corrected to what the drive reports does not press for it.
use esphome_hcpbridge.Base.{ℕ, ◌≡◌, refl, arith, Bool, true, false, some}
use esphome_hcpbridge.HcpBus.{HcpBus}
use esphome_hcpbridge.Entities.Light.{
  output_write_state, LightParts, HcpBridgeLight, correct, sync_from_drive, on_event_triggered,
  write_state,
}

-- What ESPHome documents of its light and its binary output: a performed call is what the light
-- shows, what it shows is what it writes, and an output that is not inverted writes what was asked.
pub record LightLaws {ℓ ℓ'} {L : Type ℓ} {B : Type ℓ'} (bus : HcpBus B) (parts : LightParts L B)
    : Type (ℓ ⊔ ℓ') where
  pub shows_on : (l : L) → parts.is_on (parts.perform_turn_on l) ≡ true
  pub shows_off : (l : L) → parts.is_on (parts.perform_turn_off l) ≡ false
  pub writes : (l : L) → parts.current_values_as_binary l ≡ parts.is_on l
  pub output_on :
      (b : B) (now : ℕ) → parts.output_turn_on b now ≡ (output_write_state bus b now true).bus
  pub output_off :
      (b : B) (now : ℕ) → parts.output_turn_off b now ≡ (output_write_state bus b now false).bus

module _ {ℓ ℓ'} {L : Type ℓ} {B : Type ℓ'} (bus : HcpBus B) (parts : LightParts L B)
    (laws : LightLaws bus parts) where
  correct-is_on : (l : L) (on : Bool) → parts.is_on (correct bus parts l on) ≡ on
  unfolding correct
  correct-is_on l on = ground (arith, laws.shows_on l, laws.shows_off l)

  -- Writing what the drive already reports.
  echo :
      (e : HcpBridgeLight L) (b : B) (now : ℕ) (l : L)
      → parts.is_on l ≡ (bus.state b).lamp
      → (bus.state b).valid ≡ true
      → write_state bus parts e b now l ≡ (e, b)
  unfolding write_state output_write_state
  echo e b now l shown valid =
      ground (arith, laws.writes l, laws.output_on b now, laws.output_off b now, valid, shown)

  -- Over ESPHome's light and an output that is not inverted: a light that has a state and hears
  -- of a valid state shows what the drive reports of its lamp, and the write that this correction
  -- leads to leaves the bus and the light as they are, so it presses nothing.
  pub corrected_then-write_state :
      (e : HcpBridgeLight L) (b : B) (now : ℕ) (l : L)
      → e.state ≡ some l
      → (bus.state b).valid ≡ true
      → let seen = on_event_triggered bus parts e b in
        let shown = correct bus parts l (bus.state b).lamp in
        (seen.state ≡ some shown)
        × (parts.is_on shown ≡ (bus.state b).lamp)
        × (write_state bus parts seen b now shown ≡ (seen, b))
  unfolding on_event_triggered sync_from_drive
  corrected_then-write_state e b now l has valid = (
    rw (valid, has) refl,
    correct-is_on l (bus.state b).lamp,
    echo _ b now (correct bus parts l (bus.state b).lamp) (correct-is_on l (bus.state b).lamp)
        valid,
  )

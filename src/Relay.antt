-- ===== src/Relay.antt =====
-- From the bus to Home Assistant: frames and calls change the codec of the newer bus, `update` in
-- components/hcpbridge/hcpbridge.cpp calls the cover's `on_event_triggered`, and that publishes.
pub mod Kept
pub mod Told
mod Tests
use esphome_hcpbridge.Base.{
  ℕ, ◌*◌, ◌+◌, ◌≡◌, refl, sym, ap, subst, ◌∙◌, arith, Bool, Bool-cases, true, false, not,
  if◌then◌else◌, Option, Option-cases, some, none, inl, inr, ◌==◌, lo_byte, get_or, List,
}
use esphome_hcpbridge.State.{HoermannState, clear_changed}
use esphome_hcpbridge.Hcp2.Codec.{Hcp2Codec, initial_codec}
use esphome_hcpbridge.Hcp2.Commands.{check_bus_silence}
use esphome_hcpbridge.Hcp2.Identity.{publish_identity}
use mathlib.Core.Option.{some-injective}
use esphome_hcpbridge.Ring.{HcpEventRing}
use esphome_hcpbridge.Hcp2.Board.{Board, board, board-check_bus_silence, board-publish_identity}
use esphome_hcpbridge.Hcp2.Board.Mirror.{IsMirror, start-IsMirror}
use esphome_hcpbridge.Hcp2.Board.Histories.{step-IsMirror}
use esphome_hcpbridge.Hcp2.Changed.{
  Quiet, then-Quiet, Quiet-check_bus_silence, Quiet-publish_identity,
}
use esphome_hcpbridge.Hcp2.Changed.Histories.{Quiet-step}
use esphome_hcpbridge.HcpBus.{hcp2_bus}
use esphome_hcpbridge.Component.{LogLine, Updated, update, look_after, drain_events}
use esphome_hcpbridge.Entities.Cover.{
  HcpBridgeCover, Publication, CoverOperation, operation_idle, operation_of, same_operation,
  follow_door, lose_link, on_event_triggered,
}
use esphome_hcpbridge.Entities.Cover.Told.{heard}
use esphome_hcpbridge.Component.Update.{
  is_silent, publish_identity-changed, IsUpdated, update-IsUpdated,
}
use esphome_hcpbridge.Ring.Holds.{Holds}
use esphome_hcpbridge.Events.{HcpEventEntry}
use esphome_hcpbridge.Hcp2.Runs

-- The codec, the cover, and what Home Assistant was last told by it.
pub record Home : Type 0 where
  pub codec : Hcp2Codec
  pub cover : HcpBridgeCover
  pub known : Option (ℕ × CoverOperation)

-- What an `update` that returned leaves.
unfoldable pub relay : Home → Updated Hcp2Codec → Home
relay h u =
    let r = on_event_triggered h.cover u.bus.state in
    if u.called
    then record { codec = u.bus; cover = r.0; known = heard h.known r.1 }
    else record h { codec = u.bus }

-- A call of the codec, or an `update`.
pub data Step : Home → Home → Type 0 where
  serves : (h : Home) (s : Runs.Step) → Step h (record h { codec = (Runs.step h.codec s).after })
  updates :
      (h : Home) (now : ℕ) (u : Updated Hcp2Codec)
      → update hcp2_bus h.codec now ≡ some u
      → Step h (relay h u)

-- From the constructor of the codec on, under a cover that has published nothing.
pub data Reach : Home → Type 0 where
  begins :
      (e : HcpBridgeCover) (known : Option (ℕ × CoverOperation))
      → e.published ≡ false
      → Reach (record { codec = initial_codec; cover = e; known = known })
  then_step : {h k : Home} → Reach h → Step h k → Reach k

-- The position that Home Assistant was last told.
unfoldable pub told_position : Option (ℕ × CoverOperation) → Option ℕ
told_position none = none
told_position (some (p, op)) = some p

-- The cover shows the state unless a change is still to be told, and Home Assistant knows the
-- position that the cover shows.
pub record IsRelayed (h : Home) : Type 0 where
  pub mirror : IsMirror (board h.codec)
  pub knows : h.cover.published ≡ true → told_position h.known ≡ some h.cover.position
  pub previous : h.cover.published ≡ true → h.cover.previous_position ≡ h.cover.position
  pub current :
      h.codec.state.changed ≡ false
      → h.codec.state.valid ≡ true
      → (h.cover.published ≡ true) × (h.cover.position ≡ h.codec.state.current_position)

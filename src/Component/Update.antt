-- ===== src/Component/Update.antt =====
-- One `update` over the newer bus: what is logged, what the silence of the bus changes, and when the
-- entities hear of it.
use mathlib.Core.List.{map}
use esphome_hcpbridge.Base.{
  ℕ, ◌+◌, ◌≡◌, refl, arith, Bool, true, false, Option, some, List, [], ◌∷◌, ◌++◌, ltb, ◌==◌,
  if◌then◌else◌, not, ◌||◌, ◌&&◌, sub32, Bool-cases, inl, inr, take,
}
use esphome_hcpbridge.State.{
  HoermannState, same_text, ident_serial_len, nothing, silent, set_link, set_valid, clear_changed,
  set_serial_number, set_firmware_version,
}
use esphome_hcpbridge.Events.{HcpEventEntry}
use esphome_hcpbridge.Ring.Holds.{Holds}
use esphome_hcpbridge.Hcp2.Codec.{Hcp2Codec}
use esphome_hcpbridge.Hcp2.Commands.{check_bus_silence}
use esphome_hcpbridge.Hcp2.Identity.{publish_identity}
use esphome_hcpbridge.HcpBus.{hcp2_bus}
use esphome_hcpbridge.Component.{
  LogLine, of_lost, log_event, drain_events, Updated, look_after, update,
}
use esphome_hcpbridge.Component.Log.{IsDrained, drain_events-Holds}

-- Frames came once, and none for twenty seconds.
abbrev pub is_silent : Hcp2Codec → ℕ → Bool
is_silent c now = not (c.last_frame_on == 0) && ltb 20000 (sub32 now c.last_frame_on)

abbrev pub identity_waits : Hcp2Codec → Bool
identity_waits c = c.ident_serial_ready || c.ident_firmware_ready

-- What `update` leaves for the entities, of a codec `c`.
pub record IsLookedAfter (c : Hcp2Codec) (now : ℕ) (u : Updated Hcp2Codec) : Type 0 where
  pub cleared : u.bus.state.changed ≡ false
  pub unknown : is_silent c now ≡ true → u.bus.state.valid ≡ false
  pub lost : is_silent c now ≡ true → u.bus.state.link ≡ silent
  pub emptied : is_silent c now ≡ true → u.bus.next_command ≡ nothing
  pub told : c.state.changed ≡ true → u.called ≡ true
  pub told_of_silence : is_silent c now ≡ true → c.state.valid ≡ true → u.called ≡ true
  pub calm :
      is_silent c now ≡ false
      → identity_waits c ≡ false
      → (u.called ≡ c.state.changed) × (u.bus.state ≡ clear_changed c.state)

set_serial_number-changed :
    (s : HoermannState) (text : List ℕ)
    → ((set_serial_number s text).valid ≡ s.valid)
      × (s.changed ≡ true → (set_serial_number s text).changed ≡ true)
unfolding set_serial_number
set_serial_number-changed s text =
    elim (Bool-cases (
      same_text (take (ident_serial_len + 1) s.serial_number) (take (ident_serial_len + 1) text))) [
        | inl same ↦ rw same (refl, λ h. h)
        | inr other ↦ rw other (refl, λ h. refl)
      ]

set_firmware_version-changed :
    (s : HoermannState) (text : List ℕ)
    → ((set_firmware_version s text).valid ≡ s.valid)
      × (s.changed ≡ true → (set_firmware_version s text).changed ≡ true)
unfolding set_firmware_version
set_firmware_version-changed s text = (ground arith, ground arith)

pub publish_identity-changed :
    (c : Hcp2Codec)
    → ((publish_identity c).state.valid ≡ c.state.valid)
      × ((publish_identity c).last_frame_on ≡ c.last_frame_on)
      × (c.state.changed ≡ true → (publish_identity c).state.changed ≡ true)
unfolding publish_identity
publish_identity-changed c =
    let serial = set_serial_number-changed c.state c.ident_serial in
    let firmware = set_firmware_version-changed c.state c.ident_firmware in
    let both =
      set_firmware_version-changed (set_serial_number c.state c.ident_serial) c.ident_firmware in
    (
      ground (arith, serial.0, firmware.0, both.0),
      refl,
      ground (arith, serial.1, firmware.1, both.1),
    )

check_bus_silence-changed :
    (c : Hcp2Codec) (now : ℕ)
    → (c.state.changed ≡ true → (check_bus_silence c now).state.changed ≡ true)
      × (is_silent c now ≡ true
          → c.state.valid ≡ true
          → (check_bus_silence c now).state.changed ≡ true)
unfolding check_bus_silence set_valid set_link
check_bus_silence-changed c now = (ground arith, ground arith)

look_after-lines :
    (c : Hcp2Codec) (now : ℕ) (lines : List LogLine)
    → (look_after hcp2_bus c now lines).lines ≡ lines
unfolding look_after
look_after-lines c now lines = ground arith

look_after_calls :
    (c : Hcp2Codec) (now : ℕ) (lines : List LogLine)
    → (check_bus_silence (publish_identity c) now).state.changed ≡ true
    → (look_after hcp2_bus c now lines).called ≡ true
unfolding look_after
look_after_calls c now lines h = ground (arith, h)

look_after-IsLookedAfter :
    (c : Hcp2Codec) (now : ℕ) (lines : List LogLine)
    → IsLookedAfter c now (look_after hcp2_bus c now lines)
unfolding look_after check_bus_silence publish_identity set_valid set_link set_serial_number
    set_firmware_version clear_changed
look_after-IsLookedAfter c now lines = record {
  cleared = ground arith;
  unknown = ground arith;
  lost = ground arith;
  emptied = ground arith;
  told = λ h.
      look_after_calls c now lines
        ((check_bus_silence-changed (publish_identity c) now).0 ((publish_identity-changed c).2 h));
  told_of_silence = λ h valid. look_after_calls c now lines (
      (check_bus_silence-changed (publish_identity c) now).1 (rw (publish_identity-changed c).1 h)
        (rw (publish_identity-changed c).0 valid));
  calm = ground arith;
}

-- What `update` logs, and what it leaves.
pub record IsUpdated (c : Hcp2Codec) (now : ℕ) (q : List HcpEventEntry)
    (result : Option (Updated Hcp2Codec)) : Type 0 where
  pub after : Updated Hcp2Codec
  pub returns : result ≡ some after
  pub lines :
      after.lines
      ≡ map log_event q ++ (if c.events.dropped == 0 then [] else of_lost c.events.dropped ∷ [])
  pub looked : IsLookedAfter c now after

update_drained :
    (c : Hcp2Codec) (now base : ℕ) (q : List HcpEventEntry)
    → IsDrained c.events base q (drain_events c.events)
    → IsUpdated c now q (update hcp2_bus c now)
unfolding update
update_drained c now base q d =
    let looked = look_after-IsLookedAfter (record c { events = d.after }) now _ in
    record {
      after = look_after hcp2_bus (record c { events = d.after }) now _;
      returns = rw (d.returns, update) refl;
      lines = look_after-lines _ now _;
      looked = record {
        cleared = looked.cleared;
        unknown = looked.unknown;
        lost = looked.lost;
        emptied = looked.emptied;
        told = looked.told;
        told_of_silence = looked.told_of_silence;
        calm = looked.calm;
      };
    }

-- Over the newer bus, whose ring holds some entries: an update returns; it logs a line for each
-- entry and one for those that were lost; the flag of a change is down after it. On a bus that
-- was heard once and has been silent for more than twenty seconds it leaves the state invalid,
-- the link silent and the slot empty, and calls the entities if the state was valid. A change
-- that stood before is told to them. Where neither silence nor an identity is to be reported,
-- they are called exactly if something had changed, and the state is otherwise as it was.
pub update-IsUpdated :
    (c : Hcp2Codec) (now base : ℕ) (q : List HcpEventEntry)
    → Holds c.events base q
    → IsUpdated c now q (update hcp2_bus c now)
update-IsUpdated c now base q v = update_drained c now base q (drain_events-Holds q v)

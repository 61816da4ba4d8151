-- ===== src/Entities/Cover.antt =====
-- components/hcpbridge/cover/hcpbridge_cover.h and .cpp, `HCPBridgeCover`. Positions are two
-- hundredths, as in the door's state; the position of a call is a float of the caller, of which
-- `Floats` has the tests and the conversion that the code uses.
pub mod Told
pub mod Flips
pub mod Refusals
use Prim.Native.String.{String}
use esphome_hcpbridge.Base.{
  ℕ, Bool, true, false, not, ◌&&◌, ◌||◌, ltb, ◌==◌, if◌then◌else◌, Option, none, some, List, [],
  ◌∷◌, ℤ,
}
use esphome_hcpbridge.State.{HoermannState, DoorState, opening, closing, move_venting, move_half}
use esphome_hcpbridge.Capabilities.{HcpCapabilities}
use esphome_hcpbridge.HcpBus.{HcpBus}

pub data CoverOperation : Type 0 where
  operation_idle operation_opening operation_closing : CoverOperation

unfoldable pub operation_index : CoverOperation → ℕ
operation_index operation_idle = 0
operation_index operation_opening = 1
operation_index operation_closing = 2

unfoldable pub same_operation : CoverOperation → CoverOperation → Bool
unfolding operation_index
same_operation a b = operation_index a == operation_index b

-- The entity: `position`, `current_operation` and the warning flag are of its base classes.
pub record HcpBridgeCover : Type 0 where
  pub position : ℕ
  pub current_operation : CoverOperation
  pub warning : Bool
  pub published : Bool
  pub previous_position : ℕ
  pub previous_operation : CoverOperation

-- A call of `publish_state(save)`, with what it published.
pub record Publication : Type 0 where
  pub position : ℕ
  pub operation : CoverOperation
  pub save : Bool

abbrev pub publication : HcpBridgeCover → Bool → Publication
publication e save = record { position = e.position; operation = e.current_operation; save = save }

-- The `switch` over the door's state.
unfoldable pub operation_of : DoorState → ℕ → ℕ → CoverOperation
operation_of opening previous current = operation_opening
operation_of move_venting previous current =
    if ltb current previous then operation_closing else operation_opening
operation_of move_half previous current =
    if ltb current previous then operation_closing else operation_opening
operation_of closing previous current = operation_closing
operation_of _ previous current = operation_idle

-- The link is down.
unfoldable pub lose_link : HcpBridgeCover → HcpBridgeCover × List Publication
lose_link e =
    let idle = record e { warning = true; current_operation = operation_idle } in
    if e.warning then (e, []) else (idle, publication idle false ∷ [])

-- The link is up.
unfoldable pub follow_door : HcpBridgeCover → HoermannState → HcpBridgeCover × List Publication
unfolding operation_of same_operation
follow_door e s =
    let seen = record e {
      warning = false;
      current_operation = operation_of s.door e.previous_position s.current_position;
      position = s.current_position;
    } in
    let position_changed = not (e.previous_position == s.current_position) in
    let operation_changed = not (same_operation e.previous_operation seen.current_operation) in
    let kept = record seen {
      previous_position = if position_changed then s.current_position else e.previous_position;
    } in
    if not e.published || operation_changed
    then (
      record kept { published = true; previous_operation = seen.current_operation },
      publication seen true ∷ [],
    )
    else (kept, if position_changed then publication seen false ∷ [] else [])

unfoldable pub on_event_triggered :
    HcpBridgeCover → HoermannState → HcpBridgeCover × List Publication
unfolding lose_link follow_door
on_event_triggered e s = if not s.valid then lose_link e else follow_door e s

-- What the code does with the float of a call: `== 1.0f`, `== 0.0f`, and `* 100.0f` as an `int`.
pub record Floats {ℓ} (F : Type ℓ) : Type ℓ where
  pub is_one : F → Bool
  pub is_zero : F → Bool
  pub percent : F → ℤ

pub record CoverCall {ℓ} (F : Type ℓ) : Type ℓ where
  pub stop : Bool
  pub position : Option F
  pub toggle : Bool

-- The clock at each of the commands that a call can lead to.
pub record CallClock : Type 0 where
  pub stop : ℕ
  pub position : ℕ
  pub toggle : ℕ

module _ {ℓ ℓ'} {B : Type ℓ} {F : Type ℓ'} (bus : HcpBus B) (floats : Floats F) where
  unfoldable pub go_to : B → ℕ → F → B × Bool
  go_to b now p =
      if floats.is_one p
      then bus.open_door b now
      else (if floats.is_zero p
          then bus.close_door b now
          else bus.set_position b now (floats.percent p))

  -- The bus after each of the three commands, and whether all that were given were taken.
  unfoldable pub command_all : B → CoverCall F → CallClock → B × Bool
  unfolding go_to
  command_all b call clock =
      let stopped = if call.stop then bus.stop_door b clock.stop else (b, true) in
      let moved : B × Bool = elim call.position [
        | none ↦ (stopped.0, true)
        | some p ↦ go_to stopped.0 clock.position p
      ] in
      let toggled =
        if call.toggle then bus.impulse_door moved.0 clock.toggle else (moved.0, true) in
      (toggled.0, toggled.1 && (moved.1 && stopped.1))

  unfoldable pub control : HcpBridgeCover → B → CoverCall F → CallClock → B × List Publication
  unfolding command_all
  control e b call clock =
      let done = command_all b call clock in
      (done.0, if not done.1 then publication e true ∷ [] else [])

-- A line of `report`: what was asked, and whether it was sent.
pub record Report : Type 0 where
  pub what : String
  pub sent : Bool

module _ {ℓ} {B : Type ℓ} (bus : HcpBus B) where
  unfoldable pub report : String → B × Bool → B × Report
  report what r = (r.0, record { what = what; sent = r.1 })

  unfoldable pub on_go_to_open : B → ℕ → B × Report
  on_go_to_open b now = report "open" (bus.open_door b now)

  unfoldable pub on_go_to_close : B → ℕ → B × Report
  on_go_to_close b now = report "close" (bus.close_door b now)

  unfoldable pub on_go_to_half : B → ℕ → B × Report
  on_go_to_half b now = report "half open" (bus.half_position_door b now)

  unfoldable pub on_go_to_vent : B → ℕ → B × Report
  on_go_to_vent b now = report "vent" (bus.ventilation_position_door b now)

  abbrev pub get_light_state : B → Bool
  get_light_state b = (bus.state b).lamp

  abbrev pub set_light_state : B → ℕ → Bool → B
  set_light_state b now on = (bus.turn_light b now on).0

  abbrev pub get_relay_state : B → Bool
  get_relay_state b = (bus.state b).relay

  abbrev pub get_cover_state : B → DoorState
  get_cover_state b = (bus.state b).door

pub record CoverTraits : Type 0 where
  pub assumed_state : Bool
  pub position : Bool
  pub tilt : Bool
  pub stop : Bool
  pub toggle : Bool

abbrev pub get_traits : HcpCapabilities → CoverTraits
get_traits caps = record {
  assumed_state = false;
  position = caps.has_position;
  tilt = false;
  stop = true;
  toggle = true;
}

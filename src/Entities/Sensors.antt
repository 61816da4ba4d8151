-- ===== src/Entities/Sensors.antt =====
-- components/hcpbridge/, the entities that only show: sensor/hcpbridge_sensor.h and .cpp
-- (`HCPBridgeSensor`), text_sensor/hcpbridge_text_sensor.h and .cpp (`HCPBridgeTextSensor`), and
-- binary_sensor/hcpbridge_binary_sensor.h and .cpp (`HCPBridgeBinarySensor`).
pub mod Shows
use Prim.Native.String.{String}
use esphome_hcpbridge.Base.{
  ℕ, ◌*◌, ◌/◌, Bool, true, false, not, ◌&&◌, ◌||◌, ◌==◌, if◌then◌else◌, Option, none, some, List,
  [], ◌∷◌,
}
use esphome_hcpbridge.State.{
  HoermannState, DoorState, closed, HcpLink, same_door, same_text, same_link, hoermann_state_name,
  hcp_link_name,
}

-- The sensor of a position. `previous_position` starts as a NAN, which is `none` here: it differs
-- from every value.
pub record HcpBridgeSensor : Type 0 where
  pub target_mode : Bool
  pub previous_position : Option ℕ
  pub warning : Bool

unfoldable pub differs : Option ℕ → ℕ → Bool
differs none p = true
differs (some q) p = not (q == p)

-- `update_state`: what is published is the value of a position times 100, in two hundredths too.
unfoldable pub update_state : HcpBridgeSensor → ℕ → HcpBridgeSensor × List ℕ
update_state e value = (record e { previous_position = some value }, value * 100 ∷ [])

abbrev pub shown_position : HcpBridgeSensor → HoermannState → ℕ
shown_position e s = if e.target_mode then s.target_position else s.current_position

unfoldable pub sensor_event : HcpBridgeSensor → HoermannState → HcpBridgeSensor × List ℕ
unfolding update_state differs
sensor_event e s =
    let clear = record e { warning = false } in
    if not s.valid
    then (record e { warning = true }, [])
    else (if differs e.previous_position (shown_position e s)
        then update_state clear (shown_position e s)
        else (clear, []))

-- `HCPBridgeTextSensorType`.
pub data TextSensorType : Type 0 where
  text_state text_serial_number text_firmware_version text_link : TextSensorType

-- What a text sensor can show: a state's name, a link's name, or bytes of the drive.
pub data Text : Type 0 where
  of_state : DoorState → Text
  of_link : HcpLink → Text
  of_bytes : List ℕ → Text

-- `previousText_ == text`. The names of the links differ from each other.
unfoldable pub same_shown : Text → Text → Bool
same_shown (of_state a) (of_state b) = same_door a b
same_shown (of_link a) (of_link b) = same_link a b
same_shown (of_bytes a) (of_bytes b) = same_text a b
same_shown _ _ = false

unfoldable pub print : Text → Option String
print (of_state d) = some (hoermann_state_name d)
print (of_link l) = some (hcp_link_name l)
print (of_bytes _) = none

pub record HcpBridgeTextSensor : Type 0 where
  pub type_ : TextSensorType
  pub previous_state : DoorState
  pub previous_text : Text
  pub published : Bool

abbrev pub initial_text_sensor : TextSensorType → HcpBridgeTextSensor
initial_text_sensor t = record {
  type_ = t;
  previous_state = closed;
  previous_text = of_bytes [];
  published = false;
}

unfoldable pub show_state : HcpBridgeTextSensor → DoorState → HcpBridgeTextSensor × List Text
show_state e d =
    if e.published && same_door d e.previous_state
    then (e, [])
    else (record e { previous_state = d; published = true }, of_state d ∷ [])

unfoldable pub show_link : HcpBridgeTextSensor → HcpLink → HcpBridgeTextSensor × List Text
unfolding same_shown
show_link e l =
    if e.published && same_shown e.previous_text (of_link l)
    then (e, [])
    else (record e { previous_text = of_link l; published = true }, of_link l ∷ [])

unfoldable pub is_empty : List ℕ → Bool
is_empty [] = true
is_empty (x ∷ xs) = false

unfoldable pub show_identity : HcpBridgeTextSensor → List ℕ → HcpBridgeTextSensor × List Text
unfolding same_shown is_empty
show_identity e text =
    if is_empty text || (e.published && same_shown e.previous_text (of_bytes text))
    then (e, [])
    else (record e { previous_text = of_bytes text; published = true }, of_bytes text ∷ [])

unfoldable pub text_event : HcpBridgeTextSensor → HoermannState → HcpBridgeTextSensor × List Text
unfolding show_state show_link show_identity
text_event e s = elim e.type_ [
  | text_state ↦ show_state e s.door
  | text_link ↦ show_link e s.link
  | text_serial_number ↦ show_identity e s.serial_number
  | text_firmware_version ↦ show_identity e s.firmware_version
]

-- `HCPBridgeBinarySensorType`.
pub data BinarySensorType : Type 0 where
  binary_is_connected binary_relay_state binary_actuator_error : BinarySensorType

-- What is published, whatever was published before.
unfoldable pub binary_event : BinarySensorType → HoermannState → Bool
binary_event binary_relay_state s = s.relay
binary_event binary_actuator_error s = s.actuator_error
binary_event binary_is_connected s = s.valid

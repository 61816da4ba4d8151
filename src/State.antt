-- ===== src/State.antt =====
-- components/hcpbridge/hcp_state.h and hcp_state.cpp: the door as the component understands it, the
-- commands that can be asked of the drive, and the setters. The atomics are plain fields here: each
-- setter is one step of the task that calls it. A position is a count of two-hundredths, which is
-- the unit on the wire (`byte / 200.0f`; a percentage is two of them); the code only compares
-- positions, and two distinct counts up to 255 are distinct floats in the same order.
pub mod Laws
use Prim.Native.String.{String}
use esphome_hcpbridge.Base.{
  ℕ, ◌<◌, ◌≡◌, Bool, true, false, not, ◌&&◌, ◌||◌, List, [], ◌∷◌, ◌+◌, if◌then◌else◌, same, take,
  ◌==◌,
}

-- `HoermannCommand`: NONE is `nothing`, OPEN and CLOSE are `go_open` and `go_close`.
pub data HoermannCommand : Type 0 where
  nothing go_open go_close impulse half vent light_on light_off stop : HoermannCommand

-- The number of a command in its `enum class`, as events carry it.
unfoldable pub command_index : HoermannCommand → ℕ
command_index nothing = 0
command_index go_open = 1
command_index go_close = 2
command_index impulse = 3
command_index half = 4
command_index vent = 5
command_index light_on = 6
command_index light_off = 7
command_index stop = 8

unfoldable pub is_nothing : HoermannCommand → Bool
is_nothing nothing = true
is_nothing _ = false

unfoldable pub is_stop : HoermannCommand → Bool
is_stop stop = true
is_stop _ = false

unfoldable pub is_impulse : HoermannCommand → Bool
is_impulse impulse = true
is_impulse _ = false

-- `==` of two commands.
unfoldable pub same_command : HoermannCommand → HoermannCommand → Bool
unfolding command_index
same_command a b = command_index a == command_index b

pub record HoermannCommandValues : Type 0 where
  pub reg2 : ℕ
  pub reg3 : ℕ

-- The rows of COMMAND_VALUES. The index of an enumerator is always below COMMAND_COUNT.
unfoldable pub command_values : HoermannCommand → HoermannCommandValues
command_values nothing = record { reg2 = 0x0000; reg3 = 0x0000 }
command_values go_open = record { reg2 = 0x0110; reg3 = 0x0000 }
command_values go_close = record { reg2 = 0x0120; reg3 = 0x0000 }
command_values impulse = record { reg2 = 0x0140; reg3 = 0x0000 }
command_values half = record { reg2 = 0x0100; reg3 = 0x0400 }
command_values vent = record { reg2 = 0x0100; reg3 = 0x4000 }
command_values light_on = record { reg2 = 0x0880; reg3 = 0x0000 }
command_values light_off = record { reg2 = 0x0800; reg3 = 0x0100 }
command_values stop = record { reg2 = 0x0000; reg3 = 0x0000 }

unfoldable pub command_name : HoermannCommand → String
command_name nothing = "nothing"
command_name go_open = "open"
command_name go_close = "close"
command_name impulse = "impulse"
command_name half = "half"
command_name vent = "vent"
command_name light_on = "light on"
command_name light_off = "light off"
command_name stop = "stop"

-- `HcpLink`.
pub data HcpLink : Type 0 where
  never_seen enumerating registered silent paused : HcpLink

unfoldable pub link_index : HcpLink → ℕ
link_index never_seen = 0
link_index enumerating = 1
link_index registered = 2
link_index silent = 3
link_index paused = 4

unfoldable pub same_link : HcpLink → HcpLink → Bool
unfolding link_index
same_link a b = link_index a == link_index b

unfoldable pub hcp_link_name : HcpLink → String
hcp_link_name enumerating = "Enumerating"
hcp_link_name registered = "Registered"
hcp_link_name silent = "Silent"
hcp_link_name paused = "Paused"
hcp_link_name never_seen = "Never seen"

-- `HoermannState::State`: OPEN is `opened`, HALFOPEN is `half_open`, VENT is `venting`.
pub data DoorState : Type 0 where
  opened opening closed closing half_open move_venting venting move_half stopped : DoorState

unfoldable pub door_index : DoorState → ℕ
door_index opened = 0
door_index opening = 1
door_index closed = 2
door_index closing = 3
door_index half_open = 4
door_index move_venting = 5
door_index venting = 6
door_index move_half = 7
door_index stopped = 8

unfoldable pub same_door : DoorState → DoorState → Bool
unfolding door_index
same_door a b = door_index a == door_index b

unfoldable pub hoermann_state_name : DoorState → String
hoermann_state_name opening = "Opening"
hoermann_state_name move_venting = "Move venting"
hoermann_state_name move_half = "Move half"
hoermann_state_name closing = "Closing"
hoermann_state_name opened = "Open"
hoermann_state_name closed = "Closed"
hoermann_state_name stopped = "Stopped"
hoermann_state_name half_open = "Half open"
hoermann_state_name venting = "Venting"

-- The class `HoermannState`. A text is the list of its bytes before the closing NUL.
pub record HoermannState : Type 0 where
  pub target_position : ℕ
  pub current_position : ℕ
  pub lamp : Bool  -- lightOn
  pub relay : Bool  -- relayOn
  pub actuator_error : Bool
  pub door : DoorState  -- state
  pub link : HcpLink
  pub changed : Bool
  pub goto_position : ℕ
  pub valid : Bool
  pub serial_number : List ℕ
  pub firmware_version : List ℕ

abbrev pub initial_state : HoermannState
initial_state = record {
  target_position = 0;
  current_position = 0;
  lamp = false;
  relay = false;
  actuator_error = false;
  door = closed;
  link = never_seen;
  changed = false;
  goto_position = 0;
  valid = false;
  serial_number = [];
  firmware_version = [];
}

-- IDENT_SERIAL_LEN and IDENT_FIRMWARE_LEN.
abbrev pub ident_serial_len : ℕ
ident_serial_len = 26

abbrev pub ident_firmware_len : ℕ
ident_firmware_len = 12

abbrev pub cmd_stale_ms : ℕ
cmd_stale_ms = 2000

abbrev pub bus_silence_ms : ℕ
bus_silence_ms = 20000

abbrev pub cmd_confirm_ms : ℕ
cmd_confirm_ms = 2000

abbrev pub cmd_giveup_ms : ℕ
cmd_giveup_ms = 5000

unfoldable pub set_target_position : HoermannState → ℕ → HoermannState
set_target_position s p = record s { target_position = p; changed = true }

unfoldable pub set_goto_position : HoermannState → ℕ → HoermannState
set_goto_position s p = record s { goto_position = p; changed = true }

unfoldable pub set_current_position : HoermannState → ℕ → HoermannState
set_current_position s p = record s { current_position = p; changed = true }

unfoldable pub set_light_on : HoermannState → Bool → HoermannState
set_light_on s on = record s { lamp = on; changed = true }

unfoldable pub set_relay_on : HoermannState → Bool → HoermannState
set_relay_on s on = record s { relay = on; changed = true }

unfoldable pub clear_changed : HoermannState → HoermannState
clear_changed s = record s { changed = false }

unfoldable pub is_moving : DoorState → Bool
is_moving opening = true
is_moving closing = true
is_moving move_half = true
is_moving move_venting = true
is_moving _ = false

unfoldable pub set_state : HoermannState → DoorState → HoermannState
set_state s d = record s {
  door = d;
  changed = true;
  goto_position = if is_moving s.door && not (is_moving d) then 0 else s.goto_position;
}

unfoldable pub set_actuator_error : HoermannState → Bool → HoermannState
set_actuator_error s e =
    if same s.actuator_error e then s else record s { actuator_error = e; changed = true }

-- The exchange writes on both branches; the flag is raised only by a change.
unfoldable pub set_valid : HoermannState → Bool → HoermannState
set_valid s v =
    let t = record s { valid = v } in if same s.valid v then t else record t { changed = true }

unfoldable pub set_link : HoermannState → HcpLink → HoermannState
set_link s l =
    let t = record s { link = l } in if same_link s.link l then t else record t { changed = true }

-- `strncmp(a, b, n) == 0` on texts that hold no NUL: equal as far as their first n bytes.
unfoldable pub same_text : List ℕ → List ℕ → Bool
same_text [] [] = true
same_text [] (y ∷ ys) = false
same_text (x ∷ xs) [] = false
same_text (x ∷ xs) (y ∷ ys) = x == y && same_text xs ys

-- `strncpy` of `room - 1` bytes and a NUL in the last place: the text is cut to fit the buffer.
unfoldable pub set_serial_number : HoermannState → List ℕ → HoermannState
unfolding same_text
set_serial_number s text =
    if same_text (take (ident_serial_len + 1) s.serial_number) (take (ident_serial_len + 1) text)
    then s
    else record s { serial_number = take ident_serial_len text; changed = true }

unfoldable pub set_firmware_version : HoermannState → List ℕ → HoermannState
unfolding same_text
set_firmware_version s text =
    if same_text (take (ident_firmware_len + 1) s.firmware_version)
      (take (ident_firmware_len + 1) text)
    then s
    else record s { firmware_version = take ident_firmware_len text; changed = true }

-- ===== src/Hcp2/Board/Hooks.antt =====
-- What a broadcast register changes of the state: `writeBcast` and its three hooks.
use esphome_hcpbridge.Base.{
  ℕ, ◌+◌, ◌≡◌, ◌≢◌, refl, true, false, not, ◌&&◌, ◌||◌, ◌==◌, ◌/◌, ◌%◌, ◌^◌, arith, hi_byte,
  lo_byte, get_or, set, if◌then◌else◌, some, Option-cases, inl, inr, u32,
}
use esphome_hcpbridge.State.{
  DoorState, set_current_position, set_target_position, set_state, set_actuator_error, set_relay_on,
  set_light_on,
}
use esphome_hcpbridge.Hcp2.Codec.{Hcp2Codec}
use esphome_hcpbridge.Hcp2.Broadcast.{
  on_door_position_changed, on_current_state_changed, on_reg_seven_changed, decode_state,
  write_bcast,
}

-- Which fields the three hooks leave alone.
shown-on_current_state_changed :
    (c : Hcp2Codec) (old val : ℕ)
    → let d = on_current_state_changed c old val in
      (d.state.current_position ≡ c.state.current_position)
      × (d.state.target_position ≡ c.state.target_position)
      × (d.state.lamp ≡ c.state.lamp)
      × (d.state.actuator_error ≡ c.state.actuator_error)
      × (d.state.valid ≡ c.state.valid)
      × (d.reg_bcast ≡ c.reg_bcast)
unfolding on_current_state_changed set_state
shown-on_current_state_changed c old val = elim (Option-cases (decode_state val)) [
  | inl unknown ↦ rw unknown (ground arith)
  | inr (d, known) ↦ rw known (ground arith)
]

shown-on_door_position_changed :
    (c : Hcp2Codec) (old val : ℕ)
    → let d = on_door_position_changed c old val in
      (d.state.lamp ≡ c.state.lamp)
      × (d.state.actuator_error ≡ c.state.actuator_error)
      × (d.state.door ≡ c.state.door)
      × (d.state.valid ≡ c.state.valid)
      × (d.reg_bcast ≡ c.reg_bcast)
unfolding on_door_position_changed set_current_position set_target_position
shown-on_door_position_changed c old val = ground arith

positions-on_door_position_changed :
    (c : Hcp2Codec) (old val : ℕ)
    → let d = on_door_position_changed c old val in
      (d.state.current_position
        ≡ (if lo_byte old == lo_byte val then c.state.current_position else lo_byte val))
      × (d.state.target_position
          ≡ (if hi_byte old == hi_byte val then c.state.target_position else hi_byte val))
unfolding on_door_position_changed set_current_position set_target_position
positions-on_door_position_changed c old val = ground arith

shown-on_reg_seven_changed :
    (c : Hcp2Codec) (old val : ℕ)
    → let d = on_reg_seven_changed c old val in
      (d.state.current_position ≡ c.state.current_position)
      × (d.state.target_position ≡ c.state.target_position)
      × (d.state.door ≡ c.state.door)
      × (d.state.valid ≡ c.state.valid)
      × (d.reg_bcast ≡ c.reg_bcast)
unfolding on_reg_seven_changed set_actuator_error set_relay_on set_light_on
shown-on_reg_seven_changed c old val = ground arith

lamps-on_reg_seven_changed :
    (c : Hcp2Codec) (old val : ℕ)
    → let d = on_reg_seven_changed c old val in
      (d.state.lamp ≡ (
        if lo_byte old == lo_byte val
        then c.state.lamp
        else lo_byte val == 0x14 || lo_byte val == 0x10))
      × (d.state.actuator_error ≡ (
          if hi_byte old == hi_byte val
          then c.state.actuator_error
          else not (val / 2 ^ 12 % 4 == 0)))
unfolding on_reg_seven_changed set_actuator_error set_relay_on set_light_on
lamps-on_reg_seven_changed c old val = ground arith

pub registers-write_bcast :
    (c : Hcp2Codec) (i val : ℕ) → (write_bcast c i val).reg_bcast ≡ set c.reg_bcast i val
unfolding write_bcast
registers-write_bcast c i val =
    let old = get_or c.reg_bcast i 0 in
    let counted = record c { state_writes = u32 (c.state_writes + 1) } in
    ground (
      arith,
      shown-on_door_position_changed c old val,
      shown-on_current_state_changed c old val,
      shown-on_current_state_changed counted old val,
      shown-on_reg_seven_changed c old val,
    )

pub valid-write_bcast :
    (c : Hcp2Codec) (i val : ℕ) → (write_bcast c i val).state.valid ≡ c.state.valid
unfolding write_bcast
valid-write_bcast c i val =
    let old = get_or c.reg_bcast i 0 in
    let counted = record c { state_writes = u32 (c.state_writes + 1) } in
    ground (
      arith,
      shown-on_door_position_changed c old val,
      shown-on_current_state_changed c old val,
      shown-on_current_state_changed counted old val,
      shown-on_reg_seven_changed c old val,
    )

pub positions-write_bcast :
    (c : Hcp2Codec) (i val : ℕ)
    → let s = (write_bcast c i val).state in
      let old = get_or c.reg_bcast i 0 in
      (s.current_position ≡ (
        if i == 1 && not (lo_byte old == lo_byte val)
        then lo_byte val
        else c.state.current_position))
      × (s.target_position ≡ (
          if i == 1 && not (hi_byte old == hi_byte val)
          then hi_byte val
          else c.state.target_position))
unfolding write_bcast
positions-write_bcast c i val =
    let old = get_or c.reg_bcast i 0 in
    let counted = record c { state_writes = u32 (c.state_writes + 1) } in
    ground (
      arith,
      positions-on_door_position_changed c old val,
      shown-on_current_state_changed c old val,
      shown-on_current_state_changed counted old val,
      shown-on_reg_seven_changed c old val,
    )

pub lamps-write_bcast :
    (c : Hcp2Codec) (i val : ℕ)
    → let s = (write_bcast c i val).state in
      let old = get_or c.reg_bcast i 0 in
      (s.lamp ≡ (
        if i == 6 && not (lo_byte old == lo_byte val)
        then lo_byte val == 0x14 || lo_byte val == 0x10
        else c.state.lamp))
      × (s.actuator_error ≡ (
          if i == 6 && not (hi_byte old == hi_byte val)
          then not (val / 2 ^ 12 % 4 == 0)
          else c.state.actuator_error))
unfolding write_bcast
lamps-write_bcast c i val =
    let old = get_or c.reg_bcast i 0 in
    let counted = record c { state_writes = u32 (c.state_writes + 1) } in
    ground (
      arith,
      shown-on_door_position_changed c old val,
      shown-on_current_state_changed c old val,
      shown-on_current_state_changed counted old val,
      lamps-on_reg_seven_changed c old val,
    )

-- The door follows every word that is known, and whose high byte is new.
door-on_current_state_changed :
    (c : Hcp2Codec) (old val : ℕ)
    → ((hi_byte old == hi_byte val) ≡ true
        → (on_current_state_changed c old val).state.door ≡ c.state.door)
      × ((hi_byte old == hi_byte val) ≡ false
          → (d : DoorState) → decode_state val ≡ some d
          → (on_current_state_changed c old val).state.door ≡ d)
unfolding on_current_state_changed set_state
door-on_current_state_changed c old val =
    (λ equal. rw equal refl, λ new d known. rw (new, known) refl)

pub door-write_bcast_other :
    (c : Hcp2Codec) (i val : ℕ) → i ≢ 2 → (write_bcast c i val).state.door ≡ c.state.door
unfolding write_bcast
door-write_bcast_other c i val other =
    let old = get_or c.reg_bcast i 0 in
    ground (arith, shown-on_door_position_changed c old val, shown-on_reg_seven_changed c old val)

pub door-write_bcast :
    (c : Hcp2Codec) (val : ℕ)
    → let old = get_or c.reg_bcast 2 0 in
      ((hi_byte old == hi_byte val) ≡ true → (write_bcast c 2 val).state.door ≡ c.state.door)
      × ((hi_byte old == hi_byte val) ≡ false
          → (d : DoorState) → decode_state val ≡ some d
          → (write_bcast c 2 val).state.door ≡ d)
unfolding write_bcast
door-write_bcast c val =
    let old = get_or c.reg_bcast 2 0 in
    let counted = record c { state_writes = u32 (c.state_writes + 1) } in
    ground (
      arith,
      door-on_current_state_changed c old val,
      door-on_current_state_changed counted old val,
    )

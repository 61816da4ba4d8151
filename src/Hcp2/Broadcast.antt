-- ===== src/Hcp2/Broadcast.antt =====
-- The drive's state block: what the three watched registers mean, and the stop on the way to a
-- position.
use esphome_hcpbridge.Base.{
  ℕ, zero, suc, ◌+◌, ◌*◌, ◌/◌, ◌%◌, ◌^◌, Bool, true, false, not, ◌&&◌, ◌||◌, leb, ◌==◌,
  if◌then◌else◌, u32, hi_byte, lo_byte, List, get_or, set,
}
use esphome_hcpbridge.State.{
  HoermannState, DoorState, opened, opening, closed, closing, half_open, move_venting, venting,
  move_half, stopped, same_door, set_current_position, set_target_position, set_state,
  set_actuator_error, set_relay_on, set_light_on, set_goto_position,
}
use mathlib.Core.Option.{Option, none, some}
use esphome_hcpbridge.Events.{state_changed, unknown_state, relay_register}
use esphome_hcpbridge.Hcp2.Codec.{Hcp2Codec, push_event, rd16}
use esphome_hcpbridge.Hcp2.Commands.{stop_door}

-- The low byte is the position, the high byte the target.
unfoldable pub on_door_position_changed : Hcp2Codec → ℕ → ℕ → Hcp2Codec
on_door_position_changed c old val =
    let here = if lo_byte old == lo_byte val then c else record c {
      state = set_current_position c.state (lo_byte val);
      goto_check_pending = true;
    } in
    if hi_byte old == hi_byte val
    then here
    else record here { state = set_target_position here.state (hi_byte val) }

-- The `switch` on the drive's state word: none where nothing maps it.
unfoldable pub decode_state : ℕ → Option DoorState
decode_state val =
    let code = hi_byte val in
    if code == 0x01
    then some opening
    else (if code == 0x02
        then some closing
        else (if code == 0x20
            then some opened
            else (if code == 0x40
                then some closed
                else (if code == 0x80
                    then some half_open
                    else (if code == 0x09
                        then some move_venting
                        else (if code == 0x05
                            then some move_half
                            else (if code == 0x0a
                                then some venting
                                else (if code == 0x00
                                    then some (if lo_byte val == 0x61 then venting else stopped)
                                    else none))))))))

unfoldable pub on_current_state_changed : Hcp2Codec → ℕ → ℕ → Hcp2Codec
on_current_state_changed c old val =
    let noted = push_event c state_changed (hi_byte val) val 0 in
    if hi_byte old == hi_byte val then c else elim (decode_state val) [
      | some next ↦ record noted { state = set_state noted.state next }
      | none ↦ push_event noted unknown_state (hi_byte val) val 0
    ]

unfoldable pub on_reg_seven_changed : Hcp2Codec → ℕ → ℕ → Hcp2Codec
on_reg_seven_changed c old val =
    let by_relay = hi_byte val == 0x02 in
    let errored = if hi_byte old == hi_byte val then c else record c {
      state = set_relay_on (set_actuator_error c.state (not (val / 2 ^ 12 % 4 == 0))) by_relay;
    } in
    let noted = push_event errored relay_register 0 val 0 in
    let lit = set_light_on noted.state (lo_byte val == 0x14 || lo_byte val == 0x10) in
    if lo_byte old == lo_byte val then errored else record noted {
      state = set_relay_on lit (by_relay || lo_byte val == 0x14 || lo_byte val == 0x04);
    }

-- The stop at the target, once the whole broadcast has been applied.
unfoldable pub goto_arrived : HoermannState → Bool
goto_arrived s =
    (same_door s.door closing && leb s.current_position s.goto_position)
    || (same_door s.door opening && leb s.goto_position s.current_position)

unfoldable pub check_goto_target : Hcp2Codec → ℕ → Hcp2Codec
check_goto_target c now =
    let looked = record c { goto_check_pending = false } in
    let stopping = stop_door looked now in
    let halted : Hcp2Codec = stopping.0 in
    if not c.goto_check_pending
    then c
    else (if c.state.goto_position == 0 || not (goto_arrived c.state)
        then looked
        else (if stopping.1
            then record halted { state = set_goto_position halted.state 0 }
            else halted))

unfoldable pub write_bcast : Hcp2Codec → ℕ → ℕ → Hcp2Codec
write_bcast c i val =
    let old = get_or c.reg_bcast i 0 in
    let counted = if old == val then c else record c { state_writes = u32 (c.state_writes + 1) } in
    let noted =
      if i == 1
      then on_door_position_changed c old val
      else (if i == 2
          then on_current_state_changed counted old val
          else (if i == 6 then on_reg_seven_changed c old val else c)) in
    record noted { reg_bcast = set noted.reg_bcast i val }

-- The loop over the written registers.
unfoldable pub write_bcasts : ℕ → ℕ → List ℕ → Hcp2Codec → Hcp2Codec
write_bcasts zero i wdata c = c
write_bcasts (suc left) i wdata c =
    write_bcasts left (i + 1) wdata (write_bcast c i (rd16 wdata (2 * i)))

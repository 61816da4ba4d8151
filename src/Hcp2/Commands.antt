-- ===== src/Hcp2/Commands.antt =====
-- The presses: `setCommand`, `stopDoor` and the control functions on top of them, and the silence
-- check. They run on the loop task.
use esphome_hcpbridge.Base.{
  ℕ, ◌*◌, Bool, true, false, not, ◌||◌, ltb, ◌==◌, if◌then◌else◌, same, sub32, ℤ, pos, negsuc,
  at_most, at_least,
}
use esphome_hcpbridge.State.{
  HoermannCommand, nothing, go_open, go_close, impulse, half, vent, light_on, light_off, stop,
  command_index, is_nothing, set_valid, set_link, silent, bus_silence_ms,
}
use esphome_hcpbridge.Events.{
  command_refused_no_link, command_refused_slot_busy, link_lost_command_dropped,
}
use esphome_hcpbridge.Hcp2.Codec.{Hcp2Codec, push_event}

-- The stamp goes in before the exchange and comes back out if the slot was taken.
unfoldable pub set_command : Hcp2Codec → ℕ → Bool → HoermannCommand → Hcp2Codec × Bool
set_command c now wanted command =
    if wanted
    then (if not c.state.valid || c.pause_requested
        then (push_event c command_refused_no_link (command_index command) 0 now, false)
        else (if is_nothing c.next_command
            then (record c { next_command_on = now; next_command = command }, true)
            else (push_event c command_refused_slot_busy (command_index command) 0 now, false)))
    else (c, true)

unfoldable pub stop_door : Hcp2Codec → ℕ → Hcp2Codec × Bool
stop_door c now =
    if not c.state.valid || c.pause_requested
    then (push_event c command_refused_no_link (command_index stop) 0 now, false)
    else (record c { next_command_on = now; next_command = stop; cancel_watch = true }, true)

unfoldable pub close_door : Hcp2Codec → ℕ → Hcp2Codec × Bool
close_door c now = set_command c now true go_close

unfoldable pub open_door : Hcp2Codec → ℕ → Hcp2Codec × Bool
open_door c now = set_command c now true go_open

unfoldable pub impulse_door : Hcp2Codec → ℕ → Hcp2Codec × Bool
impulse_door c now = set_command c now true impulse

unfoldable pub half_position_door : Hcp2Codec → ℕ → Hcp2Codec × Bool
half_position_door c now = set_command c now true half

unfoldable pub ventilation_position_door : Hcp2Codec → ℕ → Hcp2Codec × Bool
ventilation_position_door c now = set_command c now true vent

unfoldable pub turn_light : Hcp2Codec → ℕ → Bool → Hcp2Codec × Bool
turn_light c now on =
    set_command c now (not (same on c.state.lamp)) (if on then light_on else light_off)

-- A percentage as a position: two hundredths each. Only percentages from 6 to 94 get this far.
abbrev pub position_of : ℤ → ℕ
position_of (pos percent) = percent * 2
position_of (negsuc n) = 0

unfoldable pub set_position : Hcp2Codec → ℕ → ℤ → Hcp2Codec × Bool
set_position c now percent =
    let target = position_of percent in
    let here = c.state.current_position in
    let run = set_command c now true (if ltb here target then go_open else go_close) in
    if at_most percent 5
    then close_door c now
    else (if at_least percent 95
        then open_door c now
        else (if not c.caps.has_position
            then (c, false)
            else (if here == target
                then (c, true)
                else (if not run.1
                    then (run.0, false)
                    else (record (run.0) { goto_request = percent }, true)))))

unfoldable pub check_bus_silence : Hcp2Codec → ℕ → Hcp2Codec
check_bus_silence c now =
    let quiet = record c { state = set_link (set_valid c.state false) silent } in
    let emptied = record quiet { next_command = nothing } in
    if c.last_frame_on == 0
    then c
    else (if ltb bus_silence_ms (sub32 now c.last_frame_on)
        then (if is_nothing quiet.next_command
            then emptied
            else push_event emptied link_lost_command_dropped 0 0 now)
        else c)

-- ===== src/Hcp2/Watch.antt =====
-- Whether a command arrived and was acted on: the counter that the drive echoes, the watch for an
-- effect, and the two kinds of repeat. All of it runs on the bus task.
use esphome_hcpbridge.Base.{
  ℕ, ◌+◌, ◌%◌, Bool, true, false, not, ◌&&◌, ◌||◌, ltb, leb, ◌==◌, if◌then◌else◌, sub32, u8,
}
use esphome_hcpbridge.State.{
  HoermannCommand, nothing, go_open, go_close, half, vent, light_on, light_off, command_index,
  is_nothing, is_impulse, HoermannState, same_door, opened, opening, closed, closing, half_open,
  move_half, move_venting, venting, set_goto_position, cmd_giveup_ms, cmd_confirm_ms,
}
use esphome_hcpbridge.Events.{command_unanswered, command_resend_gave_up, command_resent}
use esphome_hcpbridge.Hcp2.Codec.{Hcp2Codec, push_event, cmd_status}

-- `commandReached`, for the state of the door.
unfoldable pub command_reached : HoermannState → HoermannCommand → Bool
command_reached s go_open = same_door s.door opening || same_door s.door opened
command_reached s go_close = same_door s.door closing || same_door s.door closed
command_reached s half = same_door s.door move_half || same_door s.door half_open
command_reached s vent = same_door s.door move_venting || same_door s.door venting
command_reached s light_on = s.lamp
command_reached s light_off = not s.lamp
command_reached s _ = false

unfoldable pub command_took_effect : Hcp2Codec → Bool
command_took_effect c =
    not (c.state_writes == c.state_writes_when_sent) || command_reached c.state c.awaited_command

unfoldable pub repeat_still_makes_sense : Hcp2Codec → Bool
repeat_still_makes_sense c =
    if is_nothing c.repeat_command
    then false
    else (if is_impulse c.repeat_command
        then c.state_writes == c.state_writes_when_sent
        else not (command_reached c.state c.repeat_command))

abbrev pub forget_watch : Hcp2Codec → Hcp2Codec
forget_watch c = record c { awaited_command = nothing; repeat_command = nothing }

unfoldable pub check_command_effect : Hcp2Codec → ℕ → Hcp2Codec
check_command_effect c now =
    let noted = push_event c command_unanswered (command_index c.awaited_command) 0 now in
    if is_nothing c.awaited_command
    then c
    else (if command_took_effect c || not (is_nothing c.next_command)
        then forget_watch c
        else (if ltb cmd_giveup_ms (sub32 now c.awaited_since)
            then record (forget_watch noted) { state = set_goto_position c.state 0 }
            else (if ltb cmd_confirm_ms (sub32 now c.last_sent_at)
                  && ltb c.confirm_repeats c.caps.unacted_repeats
                then record c {
                  confirm_repeats = u8 (c.confirm_repeats + 1);
                  repeat_command = c.awaited_command;
                }
                else c)))

unfoldable pub rearm_lost_command : Hcp2Codec → Hcp2Codec
rearm_lost_command c =
    let lost = c.last_sent_command in
    let rearmed = record c {
      repeats_sent = u8 (c.repeats_sent + 1);
      repeat_command = lost;
      awaited_command = nothing;
      last_sent_command = nothing;
    } in
    if is_nothing lost
    then c
    else (if not (is_nothing c.next_command)
        then c
        else (if leb c.caps.lost_answer_repeats c.repeats_sent
            then record (push_event c command_resend_gave_up 0 0 0) { last_sent_command = nothing }
            else push_event rearmed command_resent (command_index lost) 0 0))

unfoldable pub sync_counter : Hcp2Codec → ℕ → ℕ → Hcp2Codec
sync_counter c counter_byte command =
    let rx = counter_byte % 128 in
    let seen =
      if rx == c.tx_counter_prev && command == cmd_status then rearm_lost_command c else c in
    if not c.tx_counter_valid
    then record c { tx_counter = rx; tx_counter_valid = true }
    else (if rx == c.tx_counter then c else record seen { tx_counter = rx })

unfoldable pub advance_counter : Hcp2Codec → Hcp2Codec
advance_counter c = record c {
  tx_counter_prev = c.tx_counter;
  tx_counter = if c.tx_counter == 0x7f then 1 else u8 (c.tx_counter + 1);
}

-- ===== src/Hcp2/Poll.antt =====
-- What a poll is answered with: `setCommandValuesToRead`, in the order of its stages, and
-- `onRequestHook`, which fills the answer registers by the shape of the frame.
use esphome_hcpbridge.Base.{
  ℕ, ◌+◌, ◌*◌, ◌^◌, true, false, not, ◌&&◌, ◌||◌, ltb, leb, ◌==◌, if◌then◌else◌, sub32, u8, u16, ℤ,
  pos, negsuc, get_or, replicate, set,
}
use esphome_hcpbridge.State.{
  HoermannCommand, nothing, impulse, stop, command_index, is_nothing, is_stop, is_moving,
  command_values, set_goto_position, set_valid, set_link, registered, paused, cmd_stale_ms,
}
use esphome_hcpbridge.Events.{
  HcpEvent, command_sent, command_repeated, command_stale, command_repeat_dropped,
  identity_unanswered, empty_command, busscan, unanswerable_frame,
}
use esphome_hcpbridge.Hcp2Frame.{slave_id}
use esphome_hcpbridge.Hcp2.Codec.{
  Hcp2Codec, push_event, clear_if_still, ident_req_serial, ident_retry_ms, ident_max_attempts,
  unknown_shape_repeat_ms, cmd_status, resp_status, resp_request, resp_pause, reg_resp_count,
}
use esphome_hcpbridge.Hcp2.Watch.{check_command_effect, forget_watch, repeat_still_makes_sense}

-- A stop on the other task asked for the watch to be dropped.
unfoldable pub honour_cancel : Hcp2Codec → Hcp2Codec
honour_cancel c = if c.cancel_watch then record (forget_watch c) { cancel_watch = false } else c

-- The press that was loaded from the slot, unless it is too old to go out.
unfoldable pub drop_stale : Hcp2Codec → ℕ → HoermannCommand → Hcp2Codec × HoermannCommand
drop_stale c now cmd =
    if not (is_nothing cmd) && ltb cmd_stale_ms (sub32 now c.next_command_on)
    then (clear_if_still (push_event c command_stale (command_index cmd) 0 now) cmd, nothing)
    else (c, cmd)

-- A stop is an impulse where the door moves, and nothing where it stands.
unfoldable pub resolve_stop : Hcp2Codec → HoermannCommand → Hcp2Codec × HoermannCommand
resolve_stop c cmd =
    if is_stop cmd
    then (clear_if_still c stop, if is_moving c.state.door then impulse else nothing)
    else (c, cmd)

-- A percentage that a run was asked to stop at, as a position; negative for none.
abbrev pub goto_of : ℤ → ℕ
goto_of (pos percent) = percent * 2
goto_of (negsuc n) = 0

-- A press from the slot starts a watch of its own, and takes its target with it.
unfoldable pub start_watch : Hcp2Codec → ℕ → HoermannCommand → Hcp2Codec
start_watch c now cmd =
    let emptied = clear_if_still (record c { repeat_command = nothing }) cmd in
    record emptied {
      goto_request = negsuc 0;
      state = set_goto_position c.state (goto_of c.goto_request);
      awaited_command = cmd;
      awaited_since = now;
      confirm_repeats = 0;
      state_writes_when_sent = c.state_writes;
      repeats_sent = 0;
    }

-- What goes out: the press, or else the repeat that is armed, if it still makes sense.
unfoldable pub choose_command :
    Hcp2Codec → ℕ → HoermannCommand → Hcp2Codec × HoermannCommand × HcpEvent
choose_command c now cmd =
    if not (is_nothing cmd)
    then (start_watch c now cmd, cmd, command_sent)
    else (if repeat_still_makes_sense c
        then (record c { repeat_command = nothing }, c.repeat_command, command_repeated)
        else (if is_nothing c.repeat_command then (c, nothing, command_sent) else (
          record (push_event c command_repeat_dropped 0 0 now) { repeat_command = nothing },
          nothing,
          command_sent,
        )))

-- The two registers of the command, and the note that lets a lost answer be put right.
unfoldable pub write_command : Hcp2Codec → ℕ → HoermannCommand → HcpEvent → Hcp2Codec
write_command c now cmd why =
    let v = command_values cmd in
    let noted =
      if is_nothing cmd
      then c
      else record (push_event c why (command_index cmd) v.reg2 now) { last_sent_at = now } in
    record noted { last_sent_command = cmd; reg_resp = set (set noted.reg_resp 2 v.reg2) 3 v.reg3 }

-- `setCommandValuesToRead` once it has loaded the slot.
unfoldable pub serve_loaded : Hcp2Codec → ℕ → HoermannCommand → Hcp2Codec
serve_loaded c now loaded =
    let (fresh, pressed) = drop_stale c now loaded in
    let (resolved, cmd) = resolve_stop fresh pressed in
    let (chosen, sent, why) = choose_command resolved now cmd in write_command chosen now sent why

unfoldable pub set_command_values_to_read : Hcp2Codec → ℕ → Hcp2Codec
set_command_values_to_read c now =
    let watched = honour_cancel (check_command_effect c now) in
    serve_loaded watched now watched.next_command

unfoldable pub report_unknown_shape : Hcp2Codec → ℕ → ℕ → ℕ → ℕ → Hcp2Codec
report_unknown_shape c now fc c1 c2 =
    let same_shape =
      c.unknown_seen && c.unknown_fc == fc && c.unknown_c1 == c1 && c.unknown_c2 == c2 in
    let noted = record c {
      unknown_seen = true;
      unknown_fc = fc;
      unknown_c1 = c1;
      unknown_c2 = c2;
      unknown_logged_on = now;
    } in
    if same_shape && ltb (sub32 now c.unknown_logged_on) unknown_shape_repeat_ms
    then c
    else push_event noted unanswerable_frame c1 c2 now

unfoldable pub arm_identity_request : Hcp2Codec → ℕ → Hcp2Codec
arm_identity_request c request = record c {
  identity_wanted = request;
  identity_attempts = 0;
  identity_asked_on = 0;
  identity_asked = false;
  serial_first_half_seen = false;
}

unfoldable pub request_drive_identity : Hcp2Codec → Hcp2Codec
request_drive_identity c = arm_identity_request c ident_req_serial

-- The first answered poll asks the drive who it is.
unfoldable pub start_identity : Hcp2Codec → Hcp2Codec
unfolding request_drive_identity arm_identity_request
start_identity c =
    if not c.identity_started && c.caps.has_identity
    then request_drive_identity (record c { identity_started = true })
    else c

-- A request for the identity rides along where no command does.
unfoldable pub ask_identity : Hcp2Codec → ℕ → Hcp2Codec
ask_identity c now =
    let given_up = push_event c identity_unanswered c.identity_wanted 0 now in
    let asked = record c {
      identity_attempts = u8 (c.identity_attempts + 1);
      identity_asked_on = now;
      identity_asked = true;
      reg_resp = set (set (set c.reg_resp 1 resp_request) 2 (u16 (c.identity_wanted * 2 ^ 8))) 3 0;
    } in
    if not (c.identity_wanted == 0)
      && get_or c.reg_resp 2 0 == 0
      && get_or c.reg_resp 3 0 == 0
      && (not c.identity_asked || ltb ident_retry_ms (sub32 now c.identity_asked_on))
    then (if leb ident_max_attempts c.identity_attempts
        then record given_up { identity_wanted = 0 }
        else asked)
    else c

-- The registers that every status poll starts from.
abbrev pub clear_status : Hcp2Codec → Hcp2Codec
clear_status c = record c {
  reg_resp = set (set (set (set (set (set c.reg_resp 0 0) 1 resp_status) 4 0) 5 0) 6 0) 7 0;
}

unfoldable pub answer_pause : Hcp2Codec → Hcp2Codec
answer_pause c = record (forget_watch c) {
  reg_resp = set (set (set c.reg_resp 1 resp_pause) 2 slave_id) 3 0;
  state = set_link (set_valid c.state true) paused;
}

-- What every frame but a paused poll ends with.
unfoldable pub mark_registered : Hcp2Codec → Hcp2Codec
mark_registered c =
    let valid = set_valid c.state true in
    record c { state = if c.pause_requested then valid else set_link valid registered }

unfoldable pub status_poll : Hcp2Codec → ℕ → Hcp2Codec
status_poll c now =
    let cleared = clear_status c in
    if c.pause_requested
    then answer_pause cleared
    else mark_registered
        (ask_identity (start_identity (set_command_values_to_read cleared now)) now)

-- Eight zero registers with the plain status code.
abbrev pub blank_status : Hcp2Codec → Hcp2Codec
blank_status c = record c { reg_resp = set (replicate reg_resp_count 0) 1 resp_status }

-- The answers to every shape of frame but the status poll.
unfoldable pub answer_other : Hcp2Codec → ℕ → ℕ → ℕ → ℕ → Hcp2Codec
answer_other c now fc c1 c2 =
    if fc == 0x17 && c2 == 0x02 && c1 == 0x02
    then push_event (record c { reg_resp = set (set c.reg_resp 0 0x0004) 1 0 }) empty_command 0 0
        now
    else (if fc == 0x17 && c2 == 0x03 && c1 == 0x05
        then record (push_event c busscan 0 0 now) {
          reg_resp = set (set (set (set (set c.reg_resp 0 0) 1 0x0005) 2 0x0430) 3 0x10ff) 4 0xa845;
        }
        else (if fc == 0x17 && leb 0x03 c2
            then blank_status c
            else (if fc == 0x10 then c else report_unknown_shape (blank_status c) now fc c1 c2)))

unfoldable pub on_request_hook : Hcp2Codec → ℕ → ℕ → ℕ → ℕ → ℕ → Hcp2Codec
on_request_hook c now fc c1 c2 command =
    if fc == 0x17 && c2 == 0x02 && c1 == 0x08 && command == cmd_status
    then status_poll c now
    else mark_registered (answer_other c now fc c1 c2)

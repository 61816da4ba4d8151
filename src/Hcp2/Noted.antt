-- ===== src/Hcp2/Noted.antt =====
-- What the codec does to its ring: every call pushes some events, and nothing else.
pub mod Histories
use esphome_hcpbridge.Base.{
  ℕ, zero, suc, ◌+◌, ◌*◌, ◌≡◌, refl, Bool, List, arith, hi_byte, get_or, drop, true, false, ℤ, take,
  Bool-cases, inl, inr, not,
}
use esphome_hcpbridge.State.{
  HoermannCommand, command_index, command_values, go_open, go_close, stop, nothing,
  set_goto_position, set_valid, set_link,
}
use esphome_hcpbridge.Events.{
  HcpEvent, HcpEventEntry, command_refused_no_link, command_refused_slot_busy,
  link_lost_command_dropped, command_unanswered, command_stale, command_repeat_dropped,
  identity_unanswered, unanswerable_frame, empty_command, busscan, command_resend_gave_up,
  command_resent, identity_firmware, identity_serial, unknown_transfer_sub, wrong_register_block,
}
use esphome_hcpbridge.Ring.{HcpEventRing, push}
use esphome_hcpbridge.Hcp2.Codec.{Hcp2Codec, rd16, reg_cmd_base, clear_if_still}
use esphome_hcpbridge.Hcp2.Commands.{
  set_command, stop_door, set_position, open_door, close_door, check_bus_silence,
}
use esphome_hcpbridge.Hcp2.Watch.{
  check_command_effect, rearm_lost_command, sync_counter, advance_counter,
}
use esphome_hcpbridge.Hcp2.Poll.{
  honour_cancel, drop_stale, resolve_stop, start_watch, choose_command, write_command, serve_loaded,
  set_command_values_to_read, arm_identity_request, start_identity, ask_identity, mark_registered,
  report_unknown_shape, clear_status, answer_pause, status_poll, answer_other, on_request_hook,
  blank_status,
}
use esphome_hcpbridge.Hcp2.Broadcast.{check_goto_target}
use esphome_hcpbridge.Hcp2.Identity.{
  answer_transfer, keep_firmware, keep_first_half, keep_second_half, on_identity_data,
  on_write_block_complete, publish_identity,
}
use esphome_hcpbridge.Hcp2.Frame.{
  on_counter_write, write_cmd, write_cmds, notice_frame, serve_read_write, on_read_write,
}

-- A push of any event keeps it.
abbrev pub Keeps : (HcpEventRing → Type 0) → Type 0
Keeps P = (r : HcpEventRing) (e : HcpEventEntry) → P r → P (push r e)

module _ (P : HcpEventRing → Type 0) (keeps : Keeps P) where
  pub noted :
      (c : Hcp2Codec) (e : HcpEvent) (a b at : ℕ)
      → P c.events
      → P (push c.events (record { event = e; a = a; b = b; at_ms = at }))
  noted c e a b at h = keeps c.events _ h

  pub noted-set_command :
      (c : Hcp2Codec) (now : ℕ) (wanted : Bool) (command : HoermannCommand)
      → P c.events
      → P (set_command c now wanted command).0.events
  unfolding set_command
  noted-set_command c now wanted command h = ground (
    arith,
    h,
    noted c command_refused_no_link (command_index command) 0 now h,
    noted c command_refused_slot_busy (command_index command) 0 now h,
  )

  pub noted-stop_door : (c : Hcp2Codec) (now : ℕ) → P c.events → P ((stop_door c now).0).events
  unfolding stop_door
  noted-stop_door c now h =
      ground (arith, noted c command_refused_no_link (command_index stop) 0 now h, h)

  pub noted-set_position :
      (c : Hcp2Codec) (now : ℕ) (percent : ℤ)
      → P c.events
      → P ((set_position c now percent).0).events
  unfolding set_position open_door close_door
  noted-set_position c now percent h =
      ground
        (arith, noted-set_command c now true go_open h, noted-set_command c now true go_close h, h)

  pub noted-check_bus_silence :
      (c : Hcp2Codec) (now : ℕ) → P c.events → P (check_bus_silence c now).events
  unfolding check_bus_silence
  noted-check_bus_silence c now h = ground (arith, noted c link_lost_command_dropped 0 0 now h, h)

  noted-check_command_effect :
      (c : Hcp2Codec) (now : ℕ) → P c.events → P (check_command_effect c now).events
  unfolding check_command_effect
  noted-check_command_effect c now h =
      ground (arith, noted c command_unanswered (command_index c.awaited_command) 0 now h, h)

  noted-honour_cancel : (c : Hcp2Codec) → P c.events → P (honour_cancel c).events
  unfolding honour_cancel
  noted-honour_cancel c h = ground (arith, h)

  noted-drop_stale :
      (c : Hcp2Codec) (now : ℕ) (loaded : HoermannCommand)
      → P c.events
      → P ((drop_stale c now loaded).0).events
  unfolding drop_stale clear_if_still
  noted-drop_stale c now loaded h =
      ground (arith, noted c command_stale (command_index loaded) 0 now h, h)

  noted-resolve_stop :
      (c : Hcp2Codec) (cmd : HoermannCommand) → P c.events → P ((resolve_stop c cmd).0).events
  unfolding resolve_stop clear_if_still
  noted-resolve_stop c cmd h = ground (arith, h)

  noted-choose_command :
      (c : Hcp2Codec) (now : ℕ) (cmd : HoermannCommand)
      → P c.events
      → P ((choose_command c now cmd).0).events
  unfolding choose_command start_watch clear_if_still
  noted-choose_command c now cmd h = ground (arith, noted c command_repeat_dropped 0 0 now h, h)

  noted-write_command :
      (c : Hcp2Codec) (now : ℕ) (cmd : HoermannCommand) (why : HcpEvent)
      → P c.events
      → P (write_command c now cmd why).events
  unfolding write_command
  noted-write_command c now cmd why h =
      ground (arith, noted c why (command_index cmd) (command_values cmd).reg2 now h, h)

  noted-set_command_values_to_read :
      (c : Hcp2Codec) (now : ℕ) → P c.events → P (set_command_values_to_read c now).events
  unfolding set_command_values_to_read serve_loaded
  noted-set_command_values_to_read c now h =
      let checked = check_command_effect c now in
      let watched = honour_cancel checked in
      let fresh = drop_stale watched now watched.next_command in
      let resolved = resolve_stop fresh.0 fresh.1 in
      let chosen = choose_command resolved.0 now resolved.1 in
      noted-write_command chosen.0 now chosen.1 chosen.2 (
        noted-choose_command resolved.0 now resolved.1 (
          noted-resolve_stop fresh.0 fresh.1 (
            noted-drop_stale watched now watched.next_command
              (noted-honour_cancel checked (noted-check_command_effect c now h)))))

  noted-start_identity : (c : Hcp2Codec) → P c.events → P (start_identity c).events
  unfolding start_identity
  noted-start_identity c h = ground (arith, h)

  noted-ask_identity : (c : Hcp2Codec) (now : ℕ) → P c.events → P (ask_identity c now).events
  unfolding ask_identity
  noted-ask_identity c now h =
      ground (arith, noted c identity_unanswered c.identity_wanted 0 now h, h)

  noted-status_poll : (c : Hcp2Codec) (now : ℕ) → P c.events → P (status_poll c now).events
  unfolding status_poll answer_pause mark_registered
  noted-status_poll c now h =
      let served = set_command_values_to_read (clear_status c) now in
      ground (
        arith,
        h,
        noted-ask_identity (start_identity served) now
            (noted-start_identity served (noted-set_command_values_to_read (clear_status c) now h)),
      )

  noted-report_unknown_shape :
      (c : Hcp2Codec) (now : ℕ) (fc c1 c2 : ℕ)
      → P c.events
      → P (report_unknown_shape c now fc c1 c2).events
  unfolding report_unknown_shape
  noted-report_unknown_shape c now fc c1 c2 h =
      ground (arith, noted c unanswerable_frame c1 c2 now h, h)

  noted-answer_other :
      (c : Hcp2Codec) (now : ℕ) (fc c1 c2 : ℕ) → P c.events → P (answer_other c now fc c1 c2).events
  unfolding answer_other
  noted-answer_other c now fc c1 c2 h = ground (
    arith,
    noted c empty_command 0 0 now h,
    noted c busscan 0 0 now h,
    noted-report_unknown_shape (blank_status c) now fc c1 c2 h,
    h,
  )

  pub noted-on_request_hook :
      (c : Hcp2Codec) (now : ℕ) (fc c1 c2 command : ℕ)
      → P c.events
      → P (on_request_hook c now fc c1 c2 command).events
  unfolding on_request_hook mark_registered
  noted-on_request_hook c now fc c1 c2 command h =
      ground (arith, noted-status_poll c now h, noted-answer_other c now fc c1 c2 h, h)

  noted-sync_counter :
      (c : Hcp2Codec) (counter_byte command : ℕ)
      → P c.events
      → P (sync_counter c counter_byte command).events
  unfolding sync_counter rearm_lost_command
  noted-sync_counter c counter_byte command h = ground (
    arith,
    noted c command_resend_gave_up 0 0 0 h,
    noted c command_resent (command_index c.last_sent_command) 0 0 h,
    h,
  )

  noted-write_cmd : (c : Hcp2Codec) (i val : ℕ) → P c.events → P (write_cmd c i val).events
  unfolding write_cmd on_counter_write
  noted-write_cmd c i val h = ground (arith, h)

  noted-write_cmds :
      (left i : ℕ) (wdata : List ℕ) (c : Hcp2Codec)
      → P c.events
      → P (write_cmds left i wdata c).events
  unfolding write_cmds
  noted-write_cmds zero i wdata c h = h
  noted-write_cmds (suc left) i wdata c h =
      noted-write_cmds left (i + 1) wdata (write_cmd c i (rd16 wdata (2 * i)))
        (noted-write_cmd c i (rd16 wdata (2 * i)) h)

  noted-on_identity_data :
      (c : Hcp2Codec) (now : ℕ) (counter_byte sub_code count : ℕ)
      → P c.events
      → P ((on_identity_data c now counter_byte sub_code count).0).events
  unfolding on_identity_data keep_firmware keep_first_half keep_second_half arm_identity_request
  noted-on_identity_data c now counter_byte sub_code count h =
      ground (arith, noted c identity_firmware 0 0 now h, noted c identity_serial 0 0 now h, h)

  noted-on_write_block_complete :
      (c : Hcp2Codec) (now : ℕ) (addr count : ℕ)
      → P c.events
      → P (on_write_block_complete c now addr count).events
  unfolding on_write_block_complete answer_transfer
  noted-on_write_block_complete c now addr count h = ground (
    arith,
    noted c unknown_transfer_sub (hi_byte (get_or c.reg_cmd 1 0)) 0 now h,
    noted-on_identity_data c now (hi_byte (get_or c.reg_cmd 0 0)) (hi_byte (get_or c.reg_cmd 1 0))
        count h,
    h,
  )

  noted-serve_read_write :
      (c : Hcp2Codec) (now : ℕ) (req : List ℕ) (read_cnt write_cnt : ℕ)
      → P c.events
      → P (serve_read_write c now req read_cnt write_cnt).0.events
  unfolding serve_read_write advance_counter
  noted-serve_read_write c now req read_cnt write_cnt h =
      let wdata = drop 11 req in
      let synced = sync_counter c (get_or wdata 0 0) (get_or wdata 1 0) in
      let bare = record synced { last_sent_command = nothing } in
      let hooked = on_request_hook bare now 0x17 read_cnt write_cnt (get_or wdata 1 0) in
      noted-on_write_block_complete (write_cmds write_cnt 0 wdata hooked) now reg_cmd_base write_cnt
        (noted-write_cmds write_cnt 0 wdata hooked (
          noted-on_request_hook bare now 0x17 read_cnt write_cnt (get_or wdata 1 0)
            (noted-sync_counter c (get_or wdata 0 0) (get_or wdata 1 0) h)))

  pub noted-on_read_write :
      (c : Hcp2Codec) (now : ℕ) (req : List ℕ) (len : ℕ)
      → P c.events
      → P (on_read_write c now req len).0.events
  unfolding on_read_write
  noted-on_read_write c now req len h = ground (
    arith,
    h,
    noted c wrong_register_block (rd16 req 2) (rd16 req 6) now h,
    noted-serve_read_write c now req (rd16 req 4) (rd16 req 8) h,
  )

  pub noted-check_goto_target :
      (c : Hcp2Codec) (now : ℕ) → P c.events → P (check_goto_target c now).events
  unfolding check_goto_target stop_door set_goto_position
  noted-check_goto_target c now h =
      ground (arith, noted c command_refused_no_link (command_index stop) 0 now h, h)

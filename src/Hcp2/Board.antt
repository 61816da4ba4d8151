-- ===== src/Hcp2/Board.antt =====
-- What the codec keeps of the drive's state block: the registers themselves, and what its state
-- shows of them. Only a broadcast changes either.
pub mod Frames
pub mod Hooks
pub mod Mirror
pub mod Histories
pub mod Words
pub mod Boot
mod Tests
use esphome_hcpbridge.Base.{
  ℕ, zero, suc, ◌+◌, ◌*◌, ◌≡◌, refl, sym, ◌∙◌, Bool, List, arith, hi_byte, get_or, drop, true, ℤ,
  take, Bool-cases, inl, inr,
}
use esphome_hcpbridge.State.{
  HoermannState, HoermannCommand, DoorState, set_goto_position, set_valid, set_link,
  set_serial_number, set_firmware_version, go_open, go_close, nothing, same_text, ident_serial_len,
}
use esphome_hcpbridge.Events.{HcpEvent}
use esphome_hcpbridge.Hcp2.Codec.{Hcp2Codec, rd16, reg_cmd_base, clear_if_still}
use esphome_hcpbridge.Hcp2.Commands.{
  set_command, stop_door, set_position, open_door, close_door, check_bus_silence,
}
use esphome_hcpbridge.Hcp2.Watch.{
  check_command_effect, rearm_lost_command, sync_counter, advance_counter,
}
use esphome_hcpbridge.Hcp2.Poll.{
  honour_cancel, drop_stale, resolve_stop, start_watch, choose_command, write_command, serve_loaded,
  set_command_values_to_read, arm_identity_request, start_identity, ask_identity, mark_registered,
  report_unknown_shape, clear_status, answer_pause, status_poll, answer_other, on_request_hook,
  goto_of, blank_status,
}
use esphome_hcpbridge.Hcp2.Broadcast.{check_goto_target}
use esphome_hcpbridge.Hcp2.Identity.{
  answer_transfer, keep_firmware, keep_first_half, keep_second_half, on_identity_data,
  on_write_block_complete, publish_identity,
}
use esphome_hcpbridge.Hcp2.Frame.{
  on_counter_write, write_cmd, write_cmds, notice_frame, serve_read_write, on_read_write,
}

pub record Shown : Type 0 where
  pub position : ℕ
  pub target : ℕ
  pub lamp : Bool
  pub fault : Bool
  pub door : DoorState

abbrev pub shown : HoermannState → Shown
shown s = record {
  position = s.current_position;
  target = s.target_position;
  lamp = s.lamp;
  fault = s.actuator_error;
  door = s.door;
}

pub record Board : Type 0 where
  pub registers : List ℕ
  pub shown : Shown

abbrev pub board : Hcp2Codec → Board
board c = record { registers = c.reg_bcast; shown = shown c.state }

shown-set_serial_number :
    (s : HoermannState) (text : List ℕ) → shown (set_serial_number s text) ≡ shown s
unfolding set_serial_number
shown-set_serial_number s text =
    elim (Bool-cases (
      same_text (take (ident_serial_len + 1) s.serial_number) (take (ident_serial_len + 1) text))) [
        | inl equal ↦ rw equal refl
        | inr other ↦ rw other refl
      ]

shown-set_firmware_version :
    (s : HoermannState) (text : List ℕ) → shown (set_firmware_version s text) ≡ shown s
unfolding set_firmware_version
shown-set_firmware_version s text = ground arith

pub board-set_command :
    (c : Hcp2Codec) (now : ℕ) (wanted : Bool) (command : HoermannCommand)
    → board (set_command c now wanted command).0 ≡ board c
unfolding set_command
board-set_command c now wanted command = ground arith

pub board-stop_door : (c : Hcp2Codec) (now : ℕ) → board (stop_door c now).0 ≡ board c
unfolding stop_door
board-stop_door c now = ground arith

pub board-set_position :
    (c : Hcp2Codec) (now : ℕ) (percent : ℤ) → board (set_position c now percent).0 ≡ board c
unfolding set_position open_door close_door
board-set_position c now percent =
    ground (arith, board-set_command c now true go_open, board-set_command c now true go_close)

pub board-check_bus_silence : (c : Hcp2Codec) (now : ℕ) → board (check_bus_silence c now) ≡ board c
unfolding check_bus_silence set_valid set_link
board-check_bus_silence c now = ground arith

pub board-publish_identity : (c : Hcp2Codec) → board (publish_identity c) ≡ board c
unfolding publish_identity
board-publish_identity c = ground (
  arith,
  shown-set_serial_number c.state c.ident_serial,
  shown-set_firmware_version c.state c.ident_firmware,
  shown-set_firmware_version (set_serial_number c.state c.ident_serial) c.ident_firmware,
)

board-check_command_effect :
    (c : Hcp2Codec) (now : ℕ) → board (check_command_effect c now) ≡ board c
unfolding check_command_effect set_goto_position
board-check_command_effect c now = ground arith

board-honour_cancel : (c : Hcp2Codec) → board (honour_cancel c) ≡ board c
unfolding honour_cancel
board-honour_cancel c = ground arith

board-drop_stale :
    (c : Hcp2Codec) (now : ℕ) (loaded : HoermannCommand)
    → board (drop_stale c now loaded).0 ≡ board c
unfolding drop_stale clear_if_still
board-drop_stale c now loaded = ground arith

board-resolve_stop :
    (c : Hcp2Codec) (cmd : HoermannCommand) → board (resolve_stop c cmd).0 ≡ board c
unfolding resolve_stop clear_if_still
board-resolve_stop c cmd = ground arith

board-choose_command :
    (c : Hcp2Codec) (now : ℕ) (cmd : HoermannCommand) → board (choose_command c now cmd).0 ≡ board c
unfolding choose_command start_watch clear_if_still set_goto_position
board-choose_command c now cmd = ground arith

board-write_command :
    (c : Hcp2Codec) (now : ℕ) (cmd : HoermannCommand) (why : HcpEvent)
    → board (write_command c now cmd why) ≡ board c
unfolding write_command
board-write_command c now cmd why = ground arith

board-serve_loaded :
    (c : Hcp2Codec) (now : ℕ) (loaded : HoermannCommand)
    → board (serve_loaded c now loaded) ≡ board c
unfolding serve_loaded
board-serve_loaded c now loaded =
    let fresh = drop_stale c now loaded in
    let resolved = resolve_stop fresh.0 fresh.1 in
    let chosen = choose_command resolved.0 now resolved.1 in
    board-write_command chosen.0 now chosen.1 chosen.2
    ∙ board-choose_command resolved.0 now resolved.1
    ∙ board-resolve_stop fresh.0 fresh.1
    ∙ board-drop_stale c now loaded

pub board-set_command_values_to_read :
    (c : Hcp2Codec) (now : ℕ) → board (set_command_values_to_read c now) ≡ board c
unfolding set_command_values_to_read
board-set_command_values_to_read c now =
    let watched = honour_cancel (check_command_effect c now) in
    board-serve_loaded watched now watched.next_command
    ∙ board-honour_cancel (check_command_effect c now)
    ∙ board-check_command_effect c now

board-start_identity : (c : Hcp2Codec) → board (start_identity c) ≡ board c
unfolding start_identity
board-start_identity c = ground arith

board-ask_identity : (c : Hcp2Codec) (now : ℕ) → board (ask_identity c now) ≡ board c
unfolding ask_identity
board-ask_identity c now = ground arith

pub board-mark_registered : (c : Hcp2Codec) → board (mark_registered c) ≡ board c
unfolding mark_registered set_valid set_link
board-mark_registered c = ground arith

board-answer_pause : (c : Hcp2Codec) → board (answer_pause c) ≡ board c
unfolding answer_pause set_valid set_link
board-answer_pause c = ground arith

board-status_poll : (c : Hcp2Codec) (now : ℕ) → board (status_poll c now) ≡ board c
unfolding status_poll
board-status_poll c now =
    let served = set_command_values_to_read (clear_status c) now in
    ground (
      arith,
      board-answer_pause (clear_status c),
      board-mark_registered (ask_identity (start_identity served) now),
      board-ask_identity (start_identity served) now,
      board-start_identity served,
      board-set_command_values_to_read (clear_status c) now,
    )

board-report_unknown_shape :
    (c : Hcp2Codec) (now fc c1 c2 : ℕ) → board (report_unknown_shape c now fc c1 c2) ≡ board c
unfolding report_unknown_shape
board-report_unknown_shape c now fc c1 c2 = ground arith

board-answer_other :
    (c : Hcp2Codec) (now fc c1 c2 : ℕ) → board (answer_other c now fc c1 c2) ≡ board c
unfolding answer_other
board-answer_other c now fc c1 c2 =
    ground (arith, board-report_unknown_shape (blank_status c) now fc c1 c2)

pub board-on_request_hook :
    (c : Hcp2Codec) (now fc c1 c2 command : ℕ)
    → board (on_request_hook c now fc c1 c2 command) ≡ board c
unfolding on_request_hook
board-on_request_hook c now fc c1 c2 command = ground (
  arith,
  board-status_poll c now,
  board-mark_registered (answer_other c now fc c1 c2),
  board-answer_other c now fc c1 c2,
)

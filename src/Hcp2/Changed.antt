-- ===== src/Hcp2/Changed.antt =====
-- The flag that something has changed: only `clearChanged` lowers it, and the validity and the position
-- of the state change only together with it.
pub mod Frames
pub mod Histories
use esphome_hcpbridge.Base.{
  ℕ, zero, suc, ◌+◌, ◌*◌, ◌≡◌, refl, sym, ◌∙◌, Bool, List, arith, hi_byte, get_or, drop, true,
  false, ℤ, take, Bool-cases, inl, inr,
}
use esphome_hcpbridge.State.{
  HoermannState, HoermannCommand, DoorState, set_goto_position, set_valid, set_link,
  set_serial_number, set_firmware_version, go_open, go_close, nothing, same_text, ident_serial_len,
}
use esphome_hcpbridge.Events.{HcpEvent}
use esphome_hcpbridge.Hcp2.Codec.{Hcp2Codec, rd16, reg_cmd_base, clear_if_still}
use esphome_hcpbridge.Hcp2.Commands.{
  set_command, stop_door, set_position, open_door, close_door, check_bus_silence,
}
use esphome_hcpbridge.Hcp2.Watch.{
  check_command_effect, rearm_lost_command, sync_counter, advance_counter,
}
use esphome_hcpbridge.Hcp2.Poll.{
  honour_cancel, drop_stale, resolve_stop, start_watch, choose_command, write_command, serve_loaded,
  set_command_values_to_read, arm_identity_request, start_identity, ask_identity, mark_registered,
  report_unknown_shape, clear_status, answer_pause, status_poll, answer_other, on_request_hook,
  goto_of, blank_status,
}
use esphome_hcpbridge.Hcp2.Broadcast.{check_goto_target}
use esphome_hcpbridge.Hcp2.Identity.{
  answer_transfer, keep_firmware, keep_first_half, keep_second_half, on_identity_data,
  on_write_block_complete, publish_identity,
}
use esphome_hcpbridge.Hcp2.Frame.{
  on_counter_write, write_cmd, write_cmds, notice_frame, serve_read_write, on_read_write,
}

abbrev pub Quiet : Hcp2Codec → Hcp2Codec → Type 0
Quiet c d =
    d.state.changed ≡ false
    → (c.state.changed ≡ false)
      × (d.state.valid ≡ c.state.valid)
      × (d.state.current_position ≡ c.state.current_position)

pub then-Quiet : (b c d : Hcp2Codec) → Quiet c d → Quiet b c → Quiet b d
then-Quiet b c d second first same =
    let late = second same in
    let early = first late.0 in (early.0, late.1 ∙ early.1, late.2 ∙ early.2)

pub Quiet-set_command :
    (c : Hcp2Codec) (now : ℕ) (wanted : Bool) (command : HoermannCommand)
    → Quiet c (set_command c now wanted command).0
unfolding set_command
Quiet-set_command c now wanted command = ground arith

pub Quiet-stop_door : (c : Hcp2Codec) (now : ℕ) → Quiet c (stop_door c now).0
unfolding stop_door
Quiet-stop_door c now = ground arith

pub Quiet-set_position :
    (c : Hcp2Codec) (now : ℕ) (percent : ℤ) → Quiet c (set_position c now percent).0
unfolding set_position open_door close_door
Quiet-set_position c now percent =
    ground (arith, Quiet-set_command c now true go_open, Quiet-set_command c now true go_close)

pub Quiet-check_bus_silence : (c : Hcp2Codec) (now : ℕ) → Quiet c (check_bus_silence c now)
unfolding check_bus_silence set_valid set_link
Quiet-check_bus_silence c now = ground arith

Quiet-set_serial_number :
    (s : HoermannState) (text : List ℕ)
    → let t = set_serial_number s text in
      t.changed ≡ false
      → (s.changed ≡ false) × (t.valid ≡ s.valid) × (t.current_position ≡ s.current_position)
unfolding set_serial_number
Quiet-set_serial_number s text =
    elim (Bool-cases (
      same_text (take (ident_serial_len + 1) s.serial_number) (take (ident_serial_len + 1) text))) [
        | inl equal ↦ rw equal (λ same. (same, refl, refl))
        | inr other ↦ rw other (λ same. ground (arith, same))
      ]

Quiet-set_firmware_version :
    (s : HoermannState) (text : List ℕ)
    → let t = set_firmware_version s text in
      t.changed ≡ false
      → (s.changed ≡ false) × (t.valid ≡ s.valid) × (t.current_position ≡ s.current_position)
unfolding set_firmware_version
Quiet-set_firmware_version s text = ground arith

pub Quiet-publish_identity : (c : Hcp2Codec) → Quiet c (publish_identity c)
unfolding publish_identity
Quiet-publish_identity c = ground (
  arith,
  Quiet-set_serial_number c.state c.ident_serial,
  Quiet-set_firmware_version c.state c.ident_firmware,
  Quiet-set_firmware_version (set_serial_number c.state c.ident_serial) c.ident_firmware,
)

Quiet-check_command_effect : (c : Hcp2Codec) (now : ℕ) → Quiet c (check_command_effect c now)
unfolding check_command_effect set_goto_position
Quiet-check_command_effect c now = ground arith

Quiet-honour_cancel : (c : Hcp2Codec) → Quiet c (honour_cancel c)
unfolding honour_cancel
Quiet-honour_cancel c = ground arith

Quiet-drop_stale :
    (c : Hcp2Codec) (now : ℕ) (loaded : HoermannCommand) → Quiet c (drop_stale c now loaded).0
unfolding drop_stale clear_if_still
Quiet-drop_stale c now loaded = ground arith

Quiet-resolve_stop : (c : Hcp2Codec) (cmd : HoermannCommand) → Quiet c (resolve_stop c cmd).0
unfolding resolve_stop clear_if_still
Quiet-resolve_stop c cmd = ground arith

Quiet-choose_command :
    (c : Hcp2Codec) (now : ℕ) (cmd : HoermannCommand) → Quiet c (choose_command c now cmd).0
unfolding choose_command start_watch clear_if_still set_goto_position
Quiet-choose_command c now cmd = ground arith

Quiet-write_command :
    (c : Hcp2Codec) (now : ℕ) (cmd : HoermannCommand) (why : HcpEvent)
    → Quiet c (write_command c now cmd why)
unfolding write_command
Quiet-write_command c now cmd why = ground arith

Quiet-serve_loaded :
    (c : Hcp2Codec) (now : ℕ) (loaded : HoermannCommand) → Quiet c (serve_loaded c now loaded)
unfolding serve_loaded
Quiet-serve_loaded c now loaded =
    let fresh = drop_stale c now loaded in
    let resolved = resolve_stop fresh.0 fresh.1 in
    let chosen = choose_command resolved.0 now resolved.1 in
    then-Quiet c chosen.0 (write_command chosen.0 now chosen.1 chosen.2)
      (Quiet-write_command chosen.0 now chosen.1 chosen.2)
      (then-Quiet c resolved.0 chosen.0 (Quiet-choose_command resolved.0 now resolved.1) (
        then-Quiet c fresh.0 resolved.0 (Quiet-resolve_stop fresh.0 fresh.1)
          (Quiet-drop_stale c now loaded)))

pub Quiet-set_command_values_to_read :
    (c : Hcp2Codec) (now : ℕ) → Quiet c (set_command_values_to_read c now)
unfolding set_command_values_to_read
Quiet-set_command_values_to_read c now =
    let checked = check_command_effect c now in
    let watched = honour_cancel checked in
    then-Quiet c watched (serve_loaded watched now watched.next_command)
      (Quiet-serve_loaded watched now watched.next_command)
      (then-Quiet c checked watched (Quiet-honour_cancel checked)
        (Quiet-check_command_effect c now))

Quiet-start_identity : (c : Hcp2Codec) → Quiet c (start_identity c)
unfolding start_identity
Quiet-start_identity c = ground arith

Quiet-ask_identity : (c : Hcp2Codec) (now : ℕ) → Quiet c (ask_identity c now)
unfolding ask_identity
Quiet-ask_identity c now = ground arith

pub Quiet-mark_registered : (c : Hcp2Codec) → Quiet c (mark_registered c)
unfolding mark_registered set_valid set_link
Quiet-mark_registered c = ground arith

Quiet-answer_pause : (c : Hcp2Codec) → Quiet c (answer_pause c)
unfolding answer_pause set_valid set_link
Quiet-answer_pause c = ground arith

Quiet-status_poll : (c : Hcp2Codec) (now : ℕ) → Quiet c (status_poll c now)
unfolding status_poll
Quiet-status_poll c now =
    let served = set_command_values_to_read (clear_status c) now in
    ground (
      arith,
      Quiet-answer_pause (clear_status c),
      Quiet-mark_registered (ask_identity (start_identity served) now),
      Quiet-ask_identity (start_identity served) now,
      Quiet-start_identity served,
      Quiet-set_command_values_to_read (clear_status c) now,
    )

Quiet-report_unknown_shape :
    (c : Hcp2Codec) (now fc c1 c2 : ℕ) → Quiet c (report_unknown_shape c now fc c1 c2)
unfolding report_unknown_shape
Quiet-report_unknown_shape c now fc c1 c2 = ground arith

Quiet-answer_other : (c : Hcp2Codec) (now fc c1 c2 : ℕ) → Quiet c (answer_other c now fc c1 c2)
unfolding answer_other
Quiet-answer_other c now fc c1 c2 =
    ground (arith, Quiet-report_unknown_shape (blank_status c) now fc c1 c2)

pub Quiet-on_request_hook :
    (c : Hcp2Codec) (now fc c1 c2 command : ℕ) → Quiet c (on_request_hook c now fc c1 c2 command)
unfolding on_request_hook
Quiet-on_request_hook c now fc c1 c2 command = ground (
  arith,
  Quiet-status_poll c now,
  Quiet-mark_registered (answer_other c now fc c1 c2),
  Quiet-answer_other c now fc c1 c2,
)

-- ===== src/Hcp2/Stop.antt =====
-- `setCommand`, `stopDoor` and the poll that follows: who gets the slot, and what a stop leaves.
use esphome_hcpbridge.Base.{
  sym, subst, true, false, Bool, ℕ, ◌≤◌, ◌<◌, ◌≡◌, ◌≢◌, ◌&&◌, ◌||◌, not, arith, if◌then◌else◌,
  sub32, ltb,
}
use esphome_hcpbridge.State.{
  HoermannCommand, nothing, stop, impulse, is_nothing, is_stop, is_moving, same_command,
  cmd_stale_ms, bus_silence_ms, set_valid, set_link,
}
use esphome_hcpbridge.State.Laws.{
  is_nothing-nothing, is_nothing-stop, is_stop-stop, is_stop-nothing, is_nothing-impulse,
  same_command_self, same_command→eq, is_nothing→eq,
}
use esphome_hcpbridge.Base.{List, length, get_or, ap, ◌∙◌, refl, Bool, true, false}
use esphome_hcpbridge.State.{command_values}
use esphome_hcpbridge.Hcp2.Wire.Registers.{words-poll}
use esphome_hcpbridge.Hcp2.Codec.{Hcp2Codec, clear_if_still}
use esphome_hcpbridge.Hcp2.Commands.{set_command, stop_door, check_bus_silence}
use esphome_hcpbridge.Hcp2.Watch.{check_command_effect, repeat_still_makes_sense}
use esphome_hcpbridge.Hcp2.Poll.{
  honour_cancel, drop_stale, resolve_stop, choose_command, start_watch, write_command, serve_loaded,
  set_command_values_to_read,
}
use esphome_hcpbridge.Hcp2.Presses.{presses}

-- A press that is wanted is taken exactly if the link is up, no pause is asked for and the slot
-- is empty; then the slot and the stamp are its own. Else slot, stamp and everything else that
-- decides what is pressed stay as they were, so that a refused press neither replaces nor
-- refreshes the one that waits. One that is not wanted is reported as done.
pub set_command_lem :
    (c : Hcp2Codec) (now : ℕ) (wanted : Bool) (command : HoermannCommand)
    → let r = set_command c now wanted command in
      let free = c.state.valid && not c.pause_requested && is_nothing c.next_command in
      (r.1 ≡ (not wanted || free))
      × (presses r.0 ≡ (
          if wanted && free then record (presses c) { slot = command; stamp = now } else presses c))
unfolding set_command
set_command_lem c now wanted command = ground arith

-- A press that stands in the slot, where the bus task loaded another one that is not a stop, is
-- still there after the bus task has served the one it loaded.
pub next_command-serve_loaded_newer :
    (c : Hcp2Codec) (now : ℕ) (loaded : HoermannCommand)
    → same_command c.next_command loaded ≡ false
    → is_stop loaded ≡ false
    → (serve_loaded c now loaded).next_command ≡ c.next_command
unfolding serve_loaded drop_stale resolve_stop choose_command start_watch write_command
    clear_if_still
next_command-serve_loaded_newer c now loaded other notstop = ground (
  arith,
  is_nothing-nothing,
  is_stop-nothing,
  same_command_self loaded,
  same_command→eq c.next_command nothing,
)

-- A press that has waited for more than two seconds, with no repeat armed, is not sent: the
-- answer carries no command and the slot is empty afterwards.
pub last-serve_loaded_stale :
    (c : Hcp2Codec) (now : ℕ)
    → ltb cmd_stale_ms (sub32 now c.next_command_on) ≡ true
    → is_nothing c.next_command ≡ false
    → is_nothing c.repeat_command ≡ true
    → let d = serve_loaded c now c.next_command in
      (d.last_sent_command ≡ nothing) × (d.next_command ≡ nothing)
unfolding serve_loaded drop_stale resolve_stop choose_command start_watch write_command
    clear_if_still repeat_still_makes_sense
last-serve_loaded_stale c now old full unarmed =
    ground (arith, is_nothing-nothing, is_stop-nothing, same_command_self c.next_command)

-- A stop in the slot of a codec with nothing armed.
serve_loaded-stop :
    (c : Hcp2Codec) (now : ℕ)
    → c.next_command ≡ stop
    → c.repeat_command ≡ nothing
    → sub32 now c.next_command_on ≤ cmd_stale_ms
    → let d = serve_loaded c now c.next_command in
      (d.last_sent_command ≡ (if is_moving c.state.door then impulse else nothing))
      × (d.repeat_command ≡ nothing)
      × (d.next_command ≡ nothing)
unfolding serve_loaded drop_stale resolve_stop choose_command start_watch write_command
    clear_if_still repeat_still_makes_sense
serve_loaded-stop c now queued unarmed fresh = ground (
  arith,
  is_nothing-nothing,
  is_nothing-impulse,
  is_nothing-stop,
  is_stop-stop,
  is_stop-nothing,
  same_command_self stop,
)

-- What the watch and the cancel make of a stop that was just taken.
watched_stop :
    (c : Hcp2Codec) (now later : ℕ)
    → (stop_door c now).1 ≡ true
    → let d = honour_cancel (check_command_effect (stop_door c now).0 later) in
      (d.next_command ≡ stop)
      × (d.next_command_on ≡ now)
      × (d.repeat_command ≡ nothing)
      × (d.awaited_command ≡ nothing)
      × (d.state.door ≡ c.state.door)
unfolding stop_door check_command_effect honour_cancel
watched_stop c now later taken = ground (arith, is_nothing-stop)

-- What is noted of it.
stop_door_noted :
    (c : Hcp2Codec) (now later : ℕ)
    → (stop_door c now).1 ≡ true
    → sub32 later now ≤ cmd_stale_ms
    → let d = set_command_values_to_read (stop_door c now).0 later in
      (d.last_sent_command ≡ (if is_moving c.state.door then impulse else nothing))
      × (d.repeat_command ≡ nothing)
      × (d.next_command ≡ nothing)
unfolding set_command_values_to_read
stop_door_noted c now later taken fresh =
    let d = honour_cancel (check_command_effect (stop_door c now).0 later) in
    let w = watched_stop c now later taken in
    ground (
      arith,
      w,
      serve_loaded-stop d later w.0 w.2
          (subst (λ (t : ℕ). sub32 later t ≤ cmd_stale_ms) (sym w.1) fresh),
    )

registers-stop_door : (c : Hcp2Codec) (now : ℕ) → (stop_door c now).0.reg_resp ≡ c.reg_resp
unfolding stop_door
registers-stop_door c now = ground arith

row_of_stop :
    (moves : Bool)
    → let v = command_values (if moves then impulse else nothing) in
      (v.reg2 ≡ (if moves then 0x0140 else 0)) × (v.reg3 ≡ 0)
unfolding command_values
row_of_stop true = (refl, refl)
row_of_stop false = (refl, refl)

-- On a codec that has its eight answer registers: a stop that is accepted, and polled for within
-- the two seconds that a press lives, puts the two words of an impulse into the answer registers
-- if the door is moving and two blank ones if it stands, whatever was queued, watched or armed
-- before; that command is the one last sent, and afterwards the slot is empty and no repeat is
-- armed.
pub stop_door_poll :
    (c : Hcp2Codec) (now later : ℕ)
    → (stop_door c now).1 ≡ true
    → sub32 later now ≤ cmd_stale_ms
    → length c.reg_resp ≡ 8
    → let d = set_command_values_to_read (stop_door c now).0 later in
      (get_or d.reg_resp 2 0 ≡ (if is_moving c.state.door then 0x0140 else 0))
      × (get_or d.reg_resp 3 0 ≡ 0)
      × (d.last_sent_command ≡ (if is_moving c.state.door then impulse else nothing))
      × (d.repeat_command ≡ nothing)
      × (d.next_command ≡ nothing)
stop_door_poll c now later taken fresh wide =
    let b = (stop_door c now).0 in
    let d = set_command_values_to_read b later in
    let note = stop_door_noted c now later taken fresh in
    let still_wide = ap (λ (regs : List ℕ). length regs) (registers-stop_door c now) ∙ wide in
    let words = words-poll b later still_wide in
    let row = row_of_stop (is_moving c.state.door) in
    (
      words.0 ∙ ap (λ (k : HoermannCommand). (command_values k).reg2) note.0 ∙ row.0,
      words.1 ∙ ap (λ (k : HoermannCommand). (command_values k).reg3) note.0 ∙ row.1,
      note.0,
      note.1,
      note.2,
    )

-- On a bus that was heard once and has been silent for more than twenty seconds, the silence
-- check empties the slot, and afterwards both a press and a stop are refused.
pub check_bus_silence-refuses :
    (c : Hcp2Codec) (now later : ℕ) (command : HoermannCommand)
    → c.last_frame_on ≢ 0
    → bus_silence_ms < sub32 now c.last_frame_on
    → let quiet = check_bus_silence c now in
      (quiet.next_command ≡ nothing)
      × ((set_command quiet later true command).1 ≡ false)
      × ((stop_door quiet later).1 ≡ false)
unfolding check_bus_silence set_command stop_door set_link set_valid
check_bus_silence-refuses c now later command heard long =
    ground (arith, is_nothing→eq c.next_command)

-- ===== src/Hcp2/Counter.antt =====
-- How a lost answer is noticed: by the counter that the drive echoes.
use esphome_hcpbridge.Base.{
  sym, subst, true, false, ℕ, ◌+◌, ◌%◌, ◌<◌, ◌≡◌, ◌∙◌, arith, if◌then◌else◌, ◌==◌, u8,
}
use esphome_hcpbridge.Base.{List, length, get_or, ap}
use esphome_hcpbridge.Hcp2.Wire.Registers.{words-poll}
use esphome_hcpbridge.State.{command_values, HoermannCommand, nothing, is_nothing}
use esphome_hcpbridge.State.Laws.{is_nothing-nothing, is_nothing→eq, is_stop-nothing}
use esphome_hcpbridge.Hcp2.Poll.{
  serve_loaded, drop_stale, resolve_stop, choose_command, write_command, honour_cancel,
  set_command_values_to_read,
}
use esphome_hcpbridge.Hcp2.Watch.{
  repeat_still_makes_sense, check_command_effect, rearm_lost_command, sync_counter, advance_counter,
}
use esphome_hcpbridge.Hcp2.Codec.{Hcp2Codec, cmd_status}

-- The counter that the drive is expected to send after `rx`.
abbrev pub next_counter : ℕ → ℕ
next_counter rx = if rx == 0x7f then 1 else rx + 1

-- With a counter that was adopted and is below 128, a frame whose counter is the next one after
-- the frame that was answered (1 after 127) changes nothing.
pub sync_counter-advance_counter :
    (c : Hcp2Codec) (byte command : ℕ)
    → c.tx_counter_valid ≡ true
    → c.tx_counter < 128
    → byte % 128 ≡ next_counter c.tx_counter
    → sync_counter (advance_counter c) byte command ≡ advance_counter c
unfolding sync_counter advance_counter
sync_counter-advance_counter c byte command valid range e = ground arith

repeated_rearms :
    (c : Hcp2Codec) (byte : ℕ)
    → c.tx_counter_valid ≡ true
    → c.tx_counter < 128
    → byte % 128 ≡ c.tx_counter
    → sync_counter (advance_counter c) byte cmd_status
      ≡ record (rearm_lost_command (advance_counter c)) { tx_counter = c.tx_counter }
unfolding sync_counter advance_counter
repeated_rearms c byte valid range e = ground arith

other_followed :
    (c : Hcp2Codec) (byte command : ℕ)
    → ((byte % 128 ≡ c.tx_counter_prev)
        → command ≡ cmd_status
        → is_nothing c.last_sent_command ≡ true)
    → let d = sync_counter c byte command in
      (d.tx_counter_valid ≡ true) × (d.repeat_command ≡ c.repeat_command)
unfolding sync_counter rearm_lost_command
other_followed c byte command h = ground arith

-- A poll with an empty slot sends the repeat that is armed, if it still makes sense.
resend_serve :
    (c : Hcp2Codec) (now : ℕ)
    → is_nothing c.next_command ≡ true
    → (serve_loaded c now c.next_command).last_sent_command
      ≡ (if repeat_still_makes_sense c then c.repeat_command else nothing)
unfolding serve_loaded drop_stale resolve_stop choose_command write_command
resend_serve c now empty =
    ground (arith, is_nothing-nothing, is_nothing→eq c.next_command, is_stop-nothing)

-- With nothing watched and nothing to cancel, the start of a poll changes nothing.
idle_watch :
    (c : Hcp2Codec) (now : ℕ)
    → c.awaited_command ≡ nothing
    → c.cancel_watch ≡ false
    → honour_cancel (check_command_effect c now) ≡ c
unfolding honour_cancel check_command_effect
idle_watch c now unwatched calm = ground (arith, is_nothing-nothing)

idle_poll :
    (c : Hcp2Codec) (now : ℕ)
    → c.awaited_command ≡ nothing
    → c.cancel_watch ≡ false
    → is_nothing c.next_command ≡ true
    → (set_command_values_to_read c now).last_sent_command
      ≡ (if repeat_still_makes_sense c then c.repeat_command else nothing)
unfolding set_command_values_to_read
idle_poll c now unwatched calm empty =
    subst
      (λ (d : Hcp2Codec).
        (serve_loaded d now d.next_command).last_sent_command
        ≡ (if repeat_still_makes_sense c then c.repeat_command else nothing))
      (sym (idle_watch c now unwatched calm)) (resend_serve c now empty)

-- What a lost answer leaves.
record IsRearmed (before after : Hcp2Codec) : Type 0 where
  armed : after.repeat_command ≡ before.last_sent_command
  counted : after.repeats_sent ≡ u8 (before.repeats_sent + 1)
  unwatched : after.awaited_command ≡ nothing
  calm : after.cancel_watch ≡ before.cancel_watch
  slot : after.next_command ≡ before.next_command

sync_counter-IsRearmed :
    (c : Hcp2Codec) (byte : ℕ)
    → c.tx_counter_valid ≡ true
    → c.tx_counter < 128
    → byte % 128 ≡ c.tx_counter
    → is_nothing c.next_command ≡ true
    → is_nothing c.last_sent_command ≡ false
    → c.repeats_sent < c.caps.lost_answer_repeats
    → IsRearmed c (sync_counter (advance_counter c) byte cmd_status)
unfolding sync_counter advance_counter rearm_lost_command
sync_counter-IsRearmed c byte valid range same_byte empty sent room = record {
  armed = ground arith;
  counted = ground arith;
  unwatched = ground arith;
  calm = ground arith;
  slot = ground arith;
}

registers-lost :
    (c : Hcp2Codec) (byte : ℕ)
    → (sync_counter (advance_counter c) byte cmd_status).reg_resp ≡ c.reg_resp
unfolding sync_counter advance_counter rearm_lost_command
registers-lost c byte = ground arith

-- What is noted of a lost answer and of the poll that follows.
lost_answer_noted :
    (c : Hcp2Codec) (byte now : ℕ)
    → c.tx_counter_valid ≡ true
    → c.tx_counter < 128
    → byte % 128 ≡ c.tx_counter
    → is_nothing c.next_command ≡ true
    → is_nothing c.last_sent_command ≡ false
    → c.cancel_watch ≡ false
    → c.repeats_sent < c.caps.lost_answer_repeats
    → let d = sync_counter (advance_counter c) byte cmd_status in
      (d.repeat_command ≡ c.last_sent_command)
      × (d.repeats_sent ≡ u8 (c.repeats_sent + 1))
      × ((set_command_values_to_read
            (record d { last_sent_command = nothing })
            now).last_sent_command
          ≡ (if repeat_still_makes_sense d then c.last_sent_command else nothing))
unfolding repeat_still_makes_sense
lost_answer_noted c byte now valid range same_byte empty sent calm room =
    let d = sync_counter (advance_counter c) byte cmd_status in
    let r = sync_counter-IsRearmed c byte valid range same_byte empty sent room in
    ground (
      arith,
      r.armed,
      r.counted,
      idle_poll (record d { last_sent_command = nothing }) now r.unwatched (r.calm ∙ calm)
          (subst (λ (x : HoermannCommand). is_nothing x ≡ true) (sym r.slot) empty),
    )

-- On a codec that has its eight answer registers, where the drive repeats, in a status poll, the
-- counter of the frame that was just answered, that answer carried a command, no newer press
-- waits, no stop has asked for the watch to be dropped and the limit is not used up: the command
-- is armed and counted, and the poll that follows puts its two words into the answer registers
-- again if a repeat still makes sense, and else two blank ones. A repeat makes sense if the door
-- is not where the command leads, or, for an impulse, if the drive's state has not changed.
pub lost_answer_sent_again :
    (c : Hcp2Codec) (byte now : ℕ)
    → c.tx_counter_valid ≡ true
    → c.tx_counter < 128
    → byte % 128 ≡ c.tx_counter
    → is_nothing c.next_command ≡ true
    → is_nothing c.last_sent_command ≡ false
    → c.cancel_watch ≡ false
    → c.repeats_sent < c.caps.lost_answer_repeats
    → length c.reg_resp ≡ 8
    → let d = sync_counter (advance_counter c) byte cmd_status in
      let polled = set_command_values_to_read (record d { last_sent_command = nothing }) now in
      let sent = if repeat_still_makes_sense d then c.last_sent_command else nothing in
      (d.repeat_command ≡ c.last_sent_command)
      × (d.repeats_sent ≡ u8 (c.repeats_sent + 1))
      × (polled.last_sent_command ≡ sent)
      × (get_or polled.reg_resp 2 0 ≡ (command_values sent).reg2)
      × (get_or polled.reg_resp 3 0 ≡ (command_values sent).reg3)
lost_answer_sent_again c byte now valid range same_byte empty sent calm room wide =
    let d = sync_counter (advance_counter c) byte cmd_status in
    let ready = record d { last_sent_command = nothing } in
    let note = lost_answer_noted c byte now valid range same_byte empty sent calm room in
    let words =
      words-poll ready now (ap (λ (regs : List ℕ). length regs) (registers-lost c byte) ∙ wide) in
    (
      note.0,
      note.1,
      note.2,
      words.0 ∙ ap (λ (k : HoermannCommand). (command_values k).reg2) note.2,
      words.1 ∙ ap (λ (k : HoermannCommand). (command_values k).reg3) note.2,
    )

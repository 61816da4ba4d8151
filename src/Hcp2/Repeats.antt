-- ===== src/Hcp2/Repeats.antt =====
-- How often a command can go out. A press that was accepted pays for one sending, for the re-sends
-- after a lost answer and for the repeats after no effect; nothing else makes the codec send.
use esphome_hcpbridge.Base.{
  sym, subst, true, ◌⊎◌, Bool, ℕ, ◌+◌, ◌-◌, ◌≤◌, ◌≡◌, ◌&&◌, arith, if◌then◌else◌, IsByte,
}
use esphome_hcpbridge.State.{HoermannCommand, stop, is_nothing}
use esphome_hcpbridge.State.Laws.{
  is_nothing-nothing, is_nothing-impulse, is_nothing-stop, same_command_self, is_stop→eq,
}
use esphome_hcpbridge.Events.{HcpEvent}
use esphome_hcpbridge.Capabilities.{HcpCapabilities}
use esphome_hcpbridge.Hcp2.Codec.{Hcp2Codec, clear_if_still}
use esphome_hcpbridge.Hcp2.Watch.{
  repeat_still_makes_sense, check_command_effect, rearm_lost_command, sync_counter,
}
use esphome_hcpbridge.Hcp2.Poll.{
  honour_cancel, drop_stale, resolve_stop, choose_command, start_watch, write_command, serve_loaded,
}
use esphome_hcpbridge.Hcp2.Presses.{Presses, presses}

-- The limits are uint8_t.
pub record IsSmall (l : HcpCapabilities) : Type 0 where
  pub resends : IsByte l.lost_answer_repeats
  pub confirms : IsByte l.unacted_repeats

-- One sending, and every repeat that the limits allow.
abbrev pub per_press : HcpCapabilities → ℕ
per_press l = 1 + l.lost_answer_repeats + l.unacted_repeats

-- Nothing is watched, armed or on the wire.
abbrev pub is_idle : Presses → Bool
is_idle p = is_nothing p.awaited && is_nothing p.armed && is_nothing p.last

-- The repeats that are still allowed, with the one that is armed.
abbrev pub in_flight : Presses → ℕ
in_flight p =
    if is_idle p
    then 0
    else (p.limits.lost_answer_repeats - p.resends)
      + (p.limits.unacted_repeats - p.confirms)
      + (if is_nothing p.armed then 0 else 1)

-- The sendings that a codec may still make on account of the presses that it has accepted.
abbrev pub credit : Presses → ℕ
credit p = (if is_nothing p.slot then 0 else per_press p.limits) + in_flight p

-- A codec's limits and credit after a step that sends nothing.
abbrev pub Spends : Presses → Presses → Type 0
Spends p q = (credit q ≤ credit p) × (q.limits ≡ p.limits)

pub check_command_effect-Spends :
    (c : Hcp2Codec) (now : ℕ)
    → IsSmall c.caps
    → Spends (presses c) (presses (check_command_effect c now))
unfolding check_command_effect
check_command_effect-Spends c now small = ground (arith, is_nothing-nothing)

pub honour_cancel-Spends : (c : Hcp2Codec) → Spends (presses c) (presses (honour_cancel c))
unfolding honour_cancel
honour_cancel-Spends c = ground (arith, is_nothing-nothing)

rearm_lost_command-Spends :
    (c : Hcp2Codec) → IsSmall c.caps → Spends (presses c) (presses (rearm_lost_command c))
unfolding rearm_lost_command
rearm_lost_command-Spends c small = ground (arith, is_nothing-nothing)

pub sync_counter-Spends :
    (c : Hcp2Codec) (counter_byte command : ℕ)
    → IsSmall c.caps
    → Spends (presses c) (presses (sync_counter c counter_byte command))
unfolding sync_counter
sync_counter-Spends c counter_byte command small = ground (arith, rearm_lost_command-Spends c)

-- What an answer carried, as a number of sendings.
abbrev pub sendings : Presses → ℕ
sendings p = if is_nothing p.last then 0 else 1

-- A press in the hand of the bus task, taken from the slot or still in it too.
abbrev IsHeld : Presses → HoermannCommand → Type 0
IsHeld p cmd = (p.slot ≡ cmd) ⊎ (is_nothing p.slot ≡ true)

abbrev in_hand : Presses → HoermannCommand → ℕ
in_hand p cmd = (if is_nothing cmd then 0 else per_press p.limits) + in_flight p

-- What a stage of the poll may do to a press that it holds.
record Passes (before after : Presses) (cmd cmd' : HoermannCommand) : Type 0 where
  held : IsHeld after cmd'
  cost : in_hand after cmd' ≤ in_hand before cmd
  limits : after.limits ≡ before.limits
  last : after.last ≡ before.last

drop_stale-Passes :
    (c : Hcp2Codec) (now : ℕ)
    → let r = drop_stale c now c.next_command in Passes (presses c) (presses r.0) c.next_command r.1
unfolding drop_stale clear_if_still
drop_stale-Passes c now = ground (arith, is_nothing-nothing, same_command_self c.next_command)

resolve_stop-Passes :
    (c : Hcp2Codec) (cmd : HoermannCommand)
    → IsHeld (presses c) cmd
    → let r = resolve_stop c cmd in Passes (presses c) (presses r.0) cmd r.1
unfolding resolve_stop clear_if_still
resolve_stop-Passes c cmd h = ground (
  arith,
  is_nothing-nothing,
  is_nothing-stop,
  is_nothing-impulse,
  is_stop→eq cmd,
  same_command_self stop,
)

-- What is chosen to be sent is paid for.
choose_command-credit :
    (c : Hcp2Codec) (now : ℕ) (cmd : HoermannCommand)
    → IsHeld (presses c) cmd
    → is_nothing c.last_sent_command ≡ true
    → let r = choose_command c now cmd in
      let q = record (presses r.0) { last = r.1 } in
      (sendings q + credit q ≤ in_hand (presses c) cmd) × (q.limits ≡ c.caps)
unfolding choose_command start_watch clear_if_still repeat_still_makes_sense
choose_command-credit c now cmd h l = ground (arith, is_nothing-nothing, same_command_self cmd)

pub presses-write_command :
    (c : Hcp2Codec) (now : ℕ) (cmd : HoermannCommand) (why : HcpEvent)
    → presses (write_command c now cmd why) ≡ record (presses c) { last = cmd }
unfolding write_command
presses-write_command c now cmd why = ground arith

-- A poll sends at most what has been paid for.
pub serve_loaded-credit :
    (c : Hcp2Codec) (now : ℕ)
    → is_nothing c.last_sent_command ≡ true
    → let p = presses (serve_loaded c now c.next_command) in
      (sendings p + credit p ≤ credit (presses c)) × (p.limits ≡ c.caps)
unfolding serve_loaded
serve_loaded-credit c now l =
    let fresh = drop_stale c now c.next_command in
    let resolved = resolve_stop fresh.0 fresh.1 in
    let chosen = choose_command resolved.0 now resolved.1 in
    let first = drop_stale-Passes c now in
    let second = resolve_stop-Passes fresh.0 fresh.1 first.held in
    subst (λ (p : Presses). (sendings p + credit p ≤ credit (presses c)) × (p.limits ≡ c.caps))
      (sym (presses-write_command chosen.0 now chosen.1 chosen.2))
      (ground (
        arith,
        first.cost,
        first.limits,
        second.cost,
        second.limits,
        choose_command-credit resolved.0 now resolved.1 second.held
            (ground (arith, first.last, second.last)),
      ))

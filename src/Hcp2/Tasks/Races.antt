-- ===== src/Hcp2/Tasks/Races.antt =====
-- components/hcpbridge/hcp2_codec.cpp, what can go wrong between two accesses of
-- `setCommandValuesToRead`: each theorem is a sequence of steps of the two tasks.
use esphome_hcpbridge.Base.{
  ℕ, ◌≤◌, ◌≡◌, refl, ap, ◌∙◌, true, false, sub32, pos, some, negsuc, lt→ltb, ◌<◌, none, ltb,
}
use esphome_hcpbridge.State.{
  HoermannCommand, nothing, impulse, stop, is_nothing, go_open, cmd_stale_ms, command_index,
}
use esphome_hcpbridge.State.Laws.{
  is_nothing-nothing, is_nothing-impulse, same_command_self, is_nothing→eq, is_nothing-stop,
}
use esphome_hcpbridge.Hcp2.Codec.{Hcp2Codec, clear_if_still, push_event}
use esphome_hcpbridge.Events.{command_refused_slot_busy, command_stale}
use esphome_hcpbridge.Hcp2.Poll.{choose_command, write_command, goto_of, set_command_values_to_read}
use esphome_hcpbridge.Hcp2.Watch.{repeat_still_makes_sense}
use esphome_hcpbridge.Hcp2.Tasks.{
  resting, exchanging, loop_step, away, dropping, halting, targeting, bus_step, bus_choose,
  stamping, aging, bus_age,
}
use esphome_hcpbridge.Hcp2.Commands.{set_command, stop_door}
use esphome_hcpbridge.Hcp2.Target.{poll-open}

-- A call of the loop task that nobody refuses.
pressed-impulse :
    (c : Hcp2Codec) (t : ℕ)
    → is_nothing c.next_command ≡ true
    → c.state.valid ≡ true
    → c.pause_requested ≡ false
    → set_command c t true impulse
      ≡ (record c { next_command_on = t; next_command = impulse }, true)
unfolding set_command
pressed-impulse c t free valid awake = rw (valid, awake, free) refl

pressed-stop :
    (c : Hcp2Codec) (t : ℕ)
    → c.state.valid ≡ true
    → c.pause_requested ≡ false
    → stop_door c t
      ≡ (record c { next_command_on = t; next_command = stop; cancel_watch = true }, true)
unfolding stop_door
pressed-stop c t valid awake = rw (valid, awake) refl

-- Taking out what is still there.
cleared :
    (c : Hcp2Codec) (cmd : HoermannCommand)
    → c.next_command ≡ cmd
    → clear_if_still c cmd ≡ (record c { next_command = nothing })
unfolding clear_if_still
cleared c cmd there = rw (there, same_command_self cmd) refl

-- On a registered codec that is not paused, with a stop in its slot that the poll has just turned
-- into an impulse: an impulse that is pressed after the poll has emptied the slot of the stop,
-- and before it empties it of what it sends, is reported as taken and is gone afterwards, while
-- the poll goes on to send its own one.
pub impulse_between_is_lost :
    (c : Hcp2Codec) (now t : ℕ)
    → c.next_command ≡ stop
    → c.state.valid ≡ true
    → c.pause_requested ≡ false
    → let halted = bus_step c now (halting impulse) in
      let pressed = set_command halted.0 t true impulse in
      let taken = bus_step pressed.0 now halted.1 in
      (pressed.1 ≡ true)
      × (pressed.0.next_command ≡ impulse)
      × (taken.0.next_command ≡ nothing)
      × (taken.1 ≡ targeting impulse)
unfolding bus_step bus_choose
impulse_between_is_lost c now t stops valid awake =
    let free = record c { next_command = nothing; repeat_command = nothing } in
    let filled = record free { next_command_on = t; next_command = impulse } in
    rw
      (
        cleared c stop stops,
        is_nothing-impulse,
        pressed-impulse free t is_nothing-nothing valid awake,
        cleared filled impulse refl,
      )
      (refl, refl, refl, refl)

-- On a registered codec that is not paused and has no repeat armed: a stop that is pressed after
-- the poll has found a stop in the slot too old, and before it empties the slot of it, is
-- reported as taken, stands in the slot with its own stamp, and is gone afterwards; the answer
-- carries no command.
pub stop_over_stale_is_lost :
    (c : Hcp2Codec) (now t : ℕ)
    → c.state.valid ≡ true
    → c.pause_requested ≡ false
    → is_nothing c.repeat_command ≡ true
    → let pressed = stop_door c t in
      let dropped = bus_step pressed.0 now (dropping stop) in
      (pressed.1 ≡ true)
      × (pressed.0.next_command ≡ stop)
      × (pressed.0.next_command_on ≡ t)
      × (dropped.0.next_command ≡ nothing)
      × (dropped.0.last_sent_command ≡ nothing)
      × (dropped.1 ≡ away)
unfolding bus_step bus_choose choose_command write_command repeat_still_makes_sense is_nothing
stop_over_stale_is_lost c now t valid awake bare =
    let filled = record c { next_command_on = t; next_command = stop; cancel_watch = true } in
    rw (pressed-stop c t valid awake, cleared filled stop refl, is_nothing→eq _ bare)
      (refl, refl, refl, refl, refl, refl)

-- With no target asked for: if a poll comes between the filling of the slot and the storing of
-- the target in a run to a percentage, on a stamp that is not too old, the open goes out with no
-- target to stop at, and afterwards the target is asked for while the slot is empty.
pub target_missed_by_poll :
    (c : Hcp2Codec) (now t old percent : ℕ)
    → is_nothing c.next_command ≡ true
    → c.goto_request ≡ negsuc 0
    → sub32 now c.next_command_on ≤ cmd_stale_ms
    → let pressed = loop_step c (exchanging t go_open (some (pos percent)) old) in
      let polled = set_command_values_to_read pressed.0 now in
      let asked = loop_step polled pressed.1 in
      (polled.last_sent_command ≡ go_open)
      × (polled.state.goto_position ≡ 0)
      × (asked.0.goto_request ≡ pos percent)
      × (asked.0.next_command ≡ nothing)
      × (asked.1 ≡ resting)
unfolding loop_step
target_missed_by_poll c now t old percent free unasked fresh =
    let sent = poll-open (record c { next_command = go_open }) now refl fresh in
    rw free (sent.0, sent.1 ∙ ap goto_of unasked, refl, sent.2, refl)

-- The codec whose stop was stored under the stamp of a press that was refused.
abbrev restored_stamp : Hcp2Codec → ℕ → HoermannCommand → Hcp2Codec
restored_stamp c t cmd =
    push_event (record c { next_command = stop; cancel_watch = true }) command_refused_slot_busy
      (command_index cmd) 0 t

stamp_restored :
    (c : Hcp2Codec) (t now : ℕ) (cmd : HoermannCommand)
    → c.state.valid ≡ true
    → c.pause_requested ≡ false
    → let stamped = loop_step c (stamping t cmd none) in
      let halted = stop_door stamped.0 now in
      let refused = loop_step halted.0 stamped.1 in
      let restored = loop_step refused.0 refused.1 in
      (halted.1 ≡ true) × (restored.0 ≡ restored_stamp c t cmd) × (restored.1 ≡ resting)
unfolding loop_step
stamp_restored c t now cmd valid awake =
    let stamped = record c { next_command_on = t } in
    rw (pressed-stop stamped now valid awake, is_nothing-stop) (refl, refl, refl)

stale_aged :
    (c : Hcp2Codec) (later : ℕ)
    → cmd_stale_ms < sub32 later c.next_command_on
    → bus_step c later (aging stop)
      ≡ (push_event c command_stale (command_index stop) 0 later, dropping stop)
unfolding bus_step bus_age
stale_aged c later old =
    let late : ltb cmd_stale_ms (sub32 later c.next_command_on) ≡ true = lt→ltb _ _ old in
    rw (is_nothing-stop, late) refl

stale_dropped :
    (c : Hcp2Codec) (later : ℕ) (cmd : HoermannCommand)
    → c.next_command ≡ cmd
    → is_nothing c.repeat_command ≡ true
    → let dropped = bus_step c later (dropping cmd) in
      (dropped.0.next_command ≡ nothing)
      × (dropped.0.last_sent_command ≡ nothing)
      × (dropped.1 ≡ away)
unfolding bus_step bus_choose choose_command write_command repeat_still_makes_sense is_nothing
stale_dropped c later cmd queued bare =
    rw (cleared c cmd queued, is_nothing→eq _ bare) (refl, refl, refl)

-- On a registered codec that is not paused and has no repeat armed, whose last stamp is more than
-- two seconds old by the time of the next poll: if the codec's own stop is stored after a press
-- has stamped the slot and before it tries to fill it, the stop is taken and the press is
-- refused, which puts the old stamp back; the poll then finds the stop too old, empties the slot
-- of it and is done, having sent nothing.
pub restored_stamp_drops_stop :
    (c : Hcp2Codec) (t now later : ℕ) (cmd : HoermannCommand)
    → c.state.valid ≡ true
    → c.pause_requested ≡ false
    → is_nothing c.repeat_command ≡ true
    → cmd_stale_ms < sub32 later c.next_command_on
    → let stamped = loop_step c (stamping t cmd none) in
      let halted = stop_door stamped.0 now in
      let refused = loop_step halted.0 stamped.1 in
      let restored = loop_step refused.0 refused.1 in
      let aged = bus_step restored.0 later (aging stop) in
      let dropped = bus_step aged.0 later aged.1 in
      (halted.1 ≡ true)
      × (restored.0.next_command ≡ stop)
      × (restored.1 ≡ resting)
      × (aged.1 ≡ dropping stop)
      × (dropped.0.next_command ≡ nothing)
      × (dropped.0.last_sent_command ≡ nothing)
      × (dropped.1 ≡ away)
restored_stamp_drops_stop c t now later cmd valid awake bare old =
    let r = stamp_restored c t now cmd valid awake in
    let aged = push_event (restored_stamp c t cmd) command_stale (command_index stop) 0 later in
    let drops = stale_dropped aged later stop refl bare in
    rw (r.1, stale_aged (restored_stamp c t cmd) later old)
      (r.0, refl, r.2, refl, drops.0, drops.1, drops.2)

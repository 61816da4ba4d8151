-- ===== src/Hcp2/Tasks/Tests.antt =====
-- Concrete codecs, and each theorem about the two tasks of hcp2_codec.cpp applied to them.
use esphome_hcpbridge.Base.{true, ◌≤◌, ◌≡◌, refl, arith, pos, some, none}
use esphome_hcpbridge.State.{
  nothing, impulse, stop, go_open, initial_state, opening, is_nothing, is_stop, is_moving,
  same_command,
}
use esphome_hcpbridge.State.Laws.{is_nothing-nothing}
use esphome_hcpbridge.Hcp2.Codec.{Hcp2Codec, initial_codec}
use esphome_hcpbridge.Hcp2.Commands.{set_command, stop_door}
use esphome_hcpbridge.Hcp2.Poll.{honour_cancel, choose_command, set_command_values_to_read}
use esphome_hcpbridge.Hcp2.Tasks.{
  System, resting, exchanging, away, dropping, halting, targeting, loop_step, bus_step, stops,
  loops, polls, other, loop_fills, bus_fills, sends, loads, bus_age, bus_choose, buses, start,
  Reach, begins, then_steps, after_loop, after_bus, stop_checking, stamping, aging,
}
use esphome_hcpbridge.Hcp2.Watch.{check_command_effect}
use esphome_hcpbridge.Hcp2.Tasks.Owed.{sent_at_most_accepted}
use esphome_hcpbridge.Hcp2.Tasks.Races.{
  impulse_between_is_lost, stop_over_stale_is_lost, target_missed_by_poll,
  restored_stamp_drops_stop,
}

-- A registered codec under an opening door, with a stop in its slot, and one at rest.
abbrev stopping : Hcp2Codec
stopping = record initial_codec {
  state = record initial_state { valid = true; door = opening; current_position = 20 };
  next_command = stop;
  next_command_on = 100;
}

abbrev idle : Hcp2Codec
idle = record stopping { next_command = nothing }

impulse_between_is_lost_example :
    let halted = bus_step stopping 150 (halting impulse) in
    let pressed = set_command halted.0 149 true impulse in
    let taken = bus_step pressed.0 150 halted.1 in
    (pressed.1 ≡ true)
    × (pressed.0.next_command ≡ impulse)
    × (taken.0.next_command ≡ nothing)
    × (taken.1 ≡ targeting impulse)
unfolding initial_codec
impulse_between_is_lost_example = impulse_between_is_lost stopping 150 149 refl refl refl

stop_over_stale_is_lost_example :
    let pressed = stop_door stopping 9000 in
    let dropped = bus_step pressed.0 9001 (dropping stop) in
    (pressed.1 ≡ true)
    × (pressed.0.next_command ≡ stop)
    × (pressed.0.next_command_on ≡ 9000)
    × (dropped.0.next_command ≡ nothing)
    × (dropped.0.last_sent_command ≡ nothing)
    × (dropped.1 ≡ away)
unfolding initial_codec
stop_over_stale_is_lost_example =
    stop_over_stale_is_lost stopping 9001 9000 refl refl is_nothing-nothing

target_missed_by_poll_example :
    let pressed = loop_step idle (exchanging 100 go_open (some (pos 50)) 7) in
    let polled = set_command_values_to_read pressed.0 101 in
    let asked = loop_step polled pressed.1 in
    (polled.last_sent_command ≡ go_open)
    × (polled.state.goto_position ≡ 0)
    × (asked.0.goto_request ≡ pos 50)
    × (asked.0.next_command ≡ nothing)
    × (asked.1 ≡ resting)
unfolding initial_codec
target_missed_by_poll_example =
    target_missed_by_poll idle 101 100 7 50 is_nothing-nothing refl (ground arith)

-- The loop task stops an opening door while the bus task serves a poll.
abbrev pressing : System
pressing = record start { codec = idle; loop = stop_checking 120 }

abbrev stored : System
stored = after_loop (after_loop (after_loop pressing))

abbrev polling : System
polling = after_bus (after_bus (after_bus (record stored { now = 130 })))

abbrev served : System
served = after_bus (after_bus (after_bus (after_bus (after_loop polling))))

reached_stored : Reach stored
unfolding initial_codec
reached_stored =
    let pressed = then_steps (then_steps begins (other start idle refl refl)) (stops _ 120 refl) in
    then_steps (then_steps (then_steps pressed (loops _)) (loops _)) (loops _)

reached_served : Reach served
reached_served =
    let loaded =
      then_steps (then_steps (then_steps reached_stored (polls _ 130 refl)) (buses _)) (buses _) in
    let aged = then_steps (then_steps loaded (loops _)) (buses _) in
    then_steps (then_steps (then_steps aged (buses _)) (buses _)) (buses _)

served_once : (served.sent ≡ 1) × (served.accepted ≡ 1)
unfolding bus_step loop_step loop_fills bus_fills sends loads bus_age bus_choose is_nothing is_stop
    is_moving choose_command same_command honour_cancel check_command_effect initial_codec
served_once = (refl, refl)

sent_at_most_accepted_example : served.sent ≤ served.accepted
sent_at_most_accepted_example = sent_at_most_accepted reached_served

restored_stamp_drops_stop_example :
    let stamped = loop_step idle (stamping 9000 go_open none) in
    let halted = stop_door stamped.0 9001 in
    let refused = loop_step halted.0 stamped.1 in
    let restored = loop_step refused.0 refused.1 in
    let aged = bus_step restored.0 9050 (aging stop) in
    let dropped = bus_step aged.0 9050 aged.1 in
    (halted.1 ≡ true)
    × (restored.0.next_command ≡ stop)
    × (restored.1 ≡ resting)
    × (aged.1 ≡ dropping stop)
    × (dropped.0.next_command ≡ nothing)
    × (dropped.0.last_sent_command ≡ nothing)
    × (dropped.1 ≡ away)
unfolding initial_codec is_nothing
restored_stamp_drops_stop_example =
    restored_stamp_drops_stop idle 9000 9001 9050 go_open refl refl refl (ground arith)

-- ===== src/Hcp2/Tests.antt =====
-- Concrete codecs and frames, and each theorem about the codec applied to them.
use esphome_hcpbridge.Base.{
  true, false, ℕ, ◌*◌, ◌≤◌, ◌≡◌, refl, arith, get_or, length, not, ◌==◌, if◌then◌else◌, List, [],
  ◌∷◌,
}
use esphome_hcpbridge.State.{
  command_values, nothing, impulse, go_open, initial_state, opening, stopped, is_nothing, is_stop,
  is_moving,
}
use esphome_hcpbridge.Hcp2.Codec.{Hcp2Codec, initial_codec, cmd_status}
use esphome_hcpbridge.Hcp2.Commands.{stop_door, open_door}
use esphome_hcpbridge.Hcp2.Watch.{sync_counter, advance_counter, repeat_still_makes_sense}
use esphome_hcpbridge.Hcp2.Poll.{set_command_values_to_read}
use esphome_hcpbridge.Hcp2.Frame.{on_frame}
use esphome_hcpbridge.Hcp2.Wire.{carries}
use esphome_hcpbridge.Hcp2.Presses.{presses}
use esphome_hcpbridge.Hcp2.Stop.{stop_door_poll}
use esphome_hcpbridge.Hcp2.Target.{asked_and_stopped, left_over_target}
use esphome_hcpbridge.Hcp2.Counter.{lost_answer_sent_again}
use esphome_hcpbridge.Hcp2.Answers.{Answers, on_frame-Answers, presses-on_frame_stray, is_poll}
use esphome_hcpbridge.Hcp2.Runs.{
  Step, frame, opens, stops, run, IsPaidFor, run-IsPaidFor, sent_from_start,
}
use esphome_hcpbridge.Hcp2.Runs.Stops.{never_sends_stop}
use esphome_hcpbridge.Hcp2.Pause.{on_frame_paused}

-- A status poll with the drive's counter at 0x10.
abbrev poll : List ℕ
poll =
    0x02 ∷ 0x17 ∷ 0x9c ∷ 0xb9 ∷ 0 ∷ 8 ∷ 0x9c ∷ 0x41 ∷ 0 ∷ 2 ∷ 4 ∷ 0x10 ∷ 0x03 ∷ 0 ∷ 0 ∷ 0xe2 ∷ 0xe4
    ∷ []

-- The same with a broken checksum.
abbrev broken : List ℕ
broken =
    0x02 ∷ 0x17 ∷ 0x9c ∷ 0xb9 ∷ 0 ∷ 8 ∷ 0x9c ∷ 0x41 ∷ 0 ∷ 2 ∷ 4 ∷ 0x10 ∷ 0x03 ∷ 0 ∷ 0 ∷ 0xe2 ∷ 0xe5
    ∷ []

-- A registered codec under an opening door, and one under a standing door.
abbrev moving : Hcp2Codec
moving = record initial_codec {
  state = record initial_state { valid = true; door = opening; current_position = 20 };
  tx_counter = 5;
  tx_counter_valid = true;
}

abbrev standing : Hcp2Codec
standing = record initial_codec {
  state = record initial_state { valid = true; door = stopped; current_position = 20 };
  tx_counter = 5;
  tx_counter_valid = true;
}

abbrev history : List Step
history = opens 10 ∷ frame 20 poll ∷ frame 30 poll ∷ stops 40 ∷ frame 50 poll ∷ []

run-IsPaidFor_example : IsPaidFor standing (run standing history)
unfolding initial_codec
run-IsPaidFor_example =
    run-IsPaidFor standing history (record { resends = ground arith; confirms = ground arith }) refl

sent_from_start_example :
    (run initial_codec history).sent ≤ 5 * (run initial_codec history).accepted
sent_from_start_example = sent_from_start history

never_sends_stop_example : is_stop (run initial_codec history).after.last_sent_command ≡ false
never_sends_stop_example = never_sends_stop history

stop_door_poll_example :
    let d = set_command_values_to_read (stop_door moving 100).0 150 in
    (get_or d.reg_resp 2 0 ≡ 0x0140)
    × (get_or d.reg_resp 3 0 ≡ 0)
    × (d.last_sent_command ≡ impulse)
    × (d.repeat_command ≡ nothing)
    × (d.next_command ≡ nothing)
unfolding initial_codec stop_door is_moving
stop_door_poll_example = stop_door_poll moving 100 150 refl (ground arith) refl

lost_answer_sent_again_example :
    let c = record standing { last_sent_command = go_open } in
    let d = sync_counter (advance_counter c) 0x85 cmd_status in
    let polled = set_command_values_to_read (record d { last_sent_command = nothing }) 90 in
    let sent = if repeat_still_makes_sense d then go_open else nothing in
    (d.repeat_command ≡ go_open)
    × (d.repeats_sent ≡ 1)
    × (polled.last_sent_command ≡ sent)
    × (get_or polled.reg_resp 2 0 ≡ (command_values sent).reg2)
    × (get_or polled.reg_resp 3 0 ≡ (command_values sent).reg3)
unfolding initial_codec is_nothing
lost_answer_sent_again_example =
    lost_answer_sent_again (record standing { last_sent_command = go_open }) 0x85 90 refl
      (ground arith) refl refl refl refl (ground arith) refl

left_over_target_example :
    let d = set_command_values_to_read (asked_and_stopped standing 10 20 50) 30 in
    let e = set_command_values_to_read (open_door d 9000).0 9040 in
    (e.last_sent_command ≡ go_open) × (e.state.goto_position ≡ 100)
unfolding initial_codec is_nothing is_moving
left_over_target_example =
    left_over_target standing 10 20 30 9000 9040 50 refl refl refl refl refl (ground arith)
      (ground arith) (λ h. ground arith) (ground arith)

on_frame-Answers_example : Answers (on_frame standing 20 poll).1 0x02 0x17
on_frame-Answers_example = on_frame-Answers standing 20 poll

presses-on_frame_stray_example :
    ((length (on_frame moving 20 broken).1 == 0) ≡ not (is_poll broken))
    × (presses (on_frame moving 20 broken).0
        ≡ (if is_poll broken then presses (on_frame moving 20 broken).0 else presses moving))
presses-on_frame_stray_example = presses-on_frame_stray moving 20 broken (λ e. omega arith)

on_frame_paused_example :
    let c = record standing { pause_requested = true; next_command = go_open } in
    let r = on_frame c 20 poll in
    (carries r.1 ≡ false)
    × (r.0.next_command ≡ go_open)
    × (r.0.next_command_on ≡ c.next_command_on)
    × (r.0.pause_requested ≡ true)
unfolding initial_codec
on_frame_paused_example =
    on_frame_paused (record standing { pause_requested = true; next_command = go_open }) 20 poll
      refl refl refl

-- ===== src/Hcp1/Tests.antt =====
-- Each theorem about the older codec at concrete frames.
use esphome_hcpbridge.Base.{ℕ, ◌+◌, ◌≤◌, ◌≡◌, refl, true, List, [], ◌∷◌, none, some}
use esphome_hcpbridge.State.{nothing, stop, go_open, is_nothing}
use esphome_hcpbridge.Hcp1Frame.{hcp1_parse, hcp1_build, hcp1_next_counter, hcp1_addr_master}
use esphome_hcpbridge.Hcp1.{
  Hcp1Codec, initial_codec, on_frame, stop_door, answer_loaded, take_press, status_payload,
}
use esphome_hcpbridge.Hcp1.Answers.{IsReply, expected, on_frame-IsReply}
use esphome_hcpbridge.Hcp1.Presses.{frame, opens, stops, run, waiting, sent_le_accepted}
use esphome_hcpbridge.Hcp1.Race.{stop_between_is_lost}

-- A scan of the accessory at 0x28, from the drive.
abbrev scan : List ℕ
scan = hcp1_build 16 0x28 3 (0x01 ∷ 0x80 ∷ [])

abbrev queued : Hcp1Codec
queued = record initial_codec { addressed = true; pending = go_open; pending_at = 10 }

on_frame-IsReply_example :
    IsReply
      (on_frame queued 20 scan).1
      (elim (hcp1_parse scan) [ none ↦ none | some f ↦ expected queued 20 f ])
on_frame-IsReply_example = on_frame-IsReply queued 20 scan

sent_le_accepted_example :
    let o = run queued (frame 20 scan ∷ opens 30 ∷ stops 40 ∷ frame 50 scan ∷ []) in
    o.sent + waiting o.after ≤ waiting queued + o.accepted
sent_le_accepted_example =
    sent_le_accepted queued (frame 20 scan ∷ opens 30 ∷ stops 40 ∷ frame 50 scan ∷ [])

stop_between_is_lost_example :
    let pressed = stop_door queued 15 in
    let answered = answer_loaded pressed.0 20 3 go_open in
    (pressed.1 ≡ true)
    × (pressed.0.pending ≡ stop)
    × (answered.0.pending ≡ nothing)
    × (answered.1
        ≡ hcp1_build 16 hcp1_addr_master
            (hcp1_next_counter 3)
            (status_payload (take_press pressed.0 20 go_open).1))
unfolding is_nothing
stop_between_is_lost_example = stop_between_is_lost queued 15 20 3 refl refl

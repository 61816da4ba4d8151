-- ===== src/Hcp1/Race.antt =====
-- Two tasks at the slot of the older codec: the bus task loads it, deals with what it loaded and
-- empties it with a plain store, and the loop task can press something between the two.
use esphome_hcpbridge.Base.{ℕ, ◌≡◌, true, false, arith}
use esphome_hcpbridge.State.{nothing, is_nothing, stop}
use esphome_hcpbridge.Hcp1Frame.{hcp1_build, hcp1_next_counter, hcp1_addr_master}
use esphome_hcpbridge.Hcp1.{Hcp1Codec, answer_loaded, stop_door, take_press, status_payload}

-- On the older bus, from an addressed codec with a press waiting: a stop that is pressed after
-- the bus task has loaded that press and before it empties the slot is reported as taken, is not
-- in the reply, and is gone afterwards.
pub stop_between_is_lost :
    (c : Hcp1Codec) (pressed_at now counter : ℕ)
    → c.addressed ≡ true
    → is_nothing c.pending ≡ false
    → let pressed = stop_door c pressed_at in
      let answered = answer_loaded pressed.0 now counter c.pending in
      (pressed.1 ≡ true)
      × (pressed.0.pending ≡ stop)
      × (answered.0.pending ≡ nothing)
      × (answered.1
          ≡ hcp1_build 16 hcp1_addr_master
              (hcp1_next_counter counter)
              (status_payload (take_press pressed.0 now c.pending).1))
unfolding stop_door answer_loaded
stop_between_is_lost c pressed_at now counter addressed queued = ground arith

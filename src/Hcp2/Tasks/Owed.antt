-- ===== src/Hcp2/Tasks/Owed.antt =====
-- No press goes out twice, however the two tasks of hcp2_codec.cpp are interleaved.
use esphome_hcpbridge.Base.{◌≤◌, sym, subst, inl, arith}
use esphome_hcpbridge.State.{HoermannCommand}
use esphome_hcpbridge.State.Laws.{is_nothing-nothing}
use esphome_hcpbridge.Hcp2.Codec.{initial_codec}
use esphome_hcpbridge.Hcp2.Tasks.{
  Bus, away, System, Step, presses, stops, silences, drops, polls, halts, other, loops, buses,
  start, Reach, begins, then_steps,
}
use esphome_hcpbridge.Hcp2.Tasks.Count.{in_hand, copy_of, has_copy, IsOwed}
use esphome_hcpbridge.Hcp2.Tasks.LoopOwed.{loop_step-IsOwed}
use esphome_hcpbridge.Hcp2.Tasks.BusOwed.{bus_step-IsOwed}

abbrev IsOwedBy : System → Type 0
IsOwedBy s = IsOwed s.codec.next_command s.bus s.filled s.sent s.accepted

Step-IsOwed : {s t : System} → Step s t → IsOwedBy s → IsOwedBy t
unfolding in_hand has_copy copy_of
Step-IsOwed (presses s now cmd goal rests) h = h
Step-IsOwed (stops s now rests) h = h
Step-IsOwed (silences s now rests) h = h
Step-IsOwed (drops s rests) h = record {
  paid = ground (arith, h.paid, is_nothing-nothing);
  copy = λ _ _. inl is_nothing-nothing;
}
Step-IsOwed (polls s now idle) h = bus_step-IsOwed s.codec now s.bus s.filled s.sent s.accepted h
Step-IsOwed (halts s now idle) h =
    let at_rest : IsOwed s.codec.next_command away s.filled s.sent s.accepted =
      subst (λ (b : Bus). IsOwed s.codec.next_command b s.filled s.sent s.accepted) idle h in
    record { paid = at_rest.paid; copy = λ k _. absurd (ground (arith, k)) }
Step-IsOwed (other s c idle same) h =
    subst (λ (l : HoermannCommand). IsOwed l s.bus s.filled s.sent s.accepted) (sym same) h
Step-IsOwed (loops s) h = loop_step-IsOwed s.codec s.loop s.bus s.filled s.sent s.accepted h
Step-IsOwed (buses s) h = bus_step-IsOwed s.codec s.now s.bus s.filled s.sent s.accepted h

start-IsOwed : IsOwedBy start
unfolding initial_codec in_hand has_copy copy_of
start-IsOwed = record {
  paid = ground (arith, is_nothing-nothing);
  copy = λ k _. absurd (ground (arith, k));
}

Reach-IsOwed : {s : System} → Reach s → IsOwedBy s
Reach-IsOwed begins = start-IsOwed
Reach-IsOwed (then_steps reached step) = Step-IsOwed step (Reach-IsOwed reached)

-- Under every interleaving of the steps of the loop task in `setCommand`, `stopDoor`,
-- `setPosition` and `checkBusSilence` with those of the bus task in `setCommandValuesToRead` and
-- in a stop of its own, each access to the slot being a step, from the constructor on: the
-- presses that went out of the slot are at most those that were accepted.
pub sent_at_most_accepted : {s : System} → Reach s → s.sent ≤ s.accepted
sent_at_most_accepted reached = omega (arith, (Reach-IsOwed reached).paid)

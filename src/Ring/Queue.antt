-- ===== src/Ring/Queue.antt =====
-- The abstract view of `HcpEventRing`: a queue of at most 32 entries that keeps the oldest and
-- counts the rest. No sequence of calls tells the ring from it.
use esphome_hcpbridge.Base.{
  ℕ, zero, suc, ◌+◌, ◌%◌, ◌<◌, ◌≡◌, refl, ap, ap₂, ◌∙◌, List, [], ◌∷◌, ◌++◌, arith, ltb,
  if◌then◌else◌, u32, length, get_or, take, drop, inl, inr, lt→ltb, le→ltb,
}
use esphome_hcpbridge.Events.{HcpEventEntry}
use esphome_hcpbridge.Ring.{
  HcpEventRing, capacity, no_slot, fresh_slots, empty_ring, push, drain, take_dropped,
}
use esphome_hcpbridge.Ring.Holds.{Holds, push-Holds, push_full-Holds, dropped-push, room_cases}
use esphome_hcpbridge.Ring.Drain.{drain-Holds, dropped-drain}

pub record EventQueue : Type 0 where
  pub items : List HcpEventEntry
  pub lost : ℕ

abbrev pub add : EventQueue → HcpEventEntry → EventQueue
add q e =
    if ltb (length q.items) capacity
    then record q { items = q.items ++ e ∷ [] }
    else record q { lost = u32 (q.lost + 1) }

-- What the tasks can ask of a ring, and what they get back.
pub data Call : Type 0 where
  pushes : HcpEventEntry → Call
  drains : ℕ → Call
  takes_dropped : Call

pub data Reply : Type 0 where
  done : Reply
  entries : List HcpEventEntry → Reply
  losses : ℕ → Reply

abbrev pub run_queue : EventQueue → List Call → List Reply
run_queue q [] = []
run_queue q (pushes e ∷ cs) = done ∷ run_queue (add q e) cs
run_queue q (drains max ∷ cs) =
    entries (take max q.items) ∷ run_queue (record q { items = drop max q.items }) cs
run_queue q (takes_dropped ∷ cs) = losses q.lost ∷ run_queue (record q { lost = 0 }) cs

unfoldable pub run_ring : HcpEventRing → List Call → List Reply
run_ring r [] = []
run_ring r (pushes e ∷ cs) = done ∷ run_ring (push r e) cs
run_ring r (drains max ∷ cs) = entries (drain r max).0 ∷ run_ring (drain r max).1 cs
run_ring r (takes_dropped ∷ cs) = losses (take_dropped r).0 ∷ run_ring (take_dropped r).1 cs

abbrev view : HcpEventRing → List HcpEventEntry → EventQueue
view r q = record { items = q; lost = r.dropped }

take_dropped-Holds :
    {r : HcpEventRing} {base : ℕ} {q : List HcpEventEntry}
    → Holds r base q
    → Holds (take_dropped r).1 base q
unfolding take_dropped
take_dropped-Holds v = record {
  room = v.room;
  slots = v.slots;
  write = v.write;
  read = v.read;
  held = v.held;
  vacant = v.vacant;
}

-- From any state that it can be in, a ring answers every sequence of calls as the queue does that
-- keeps the oldest 32 entries and counts the rest.
pub run_ring_refines :
    (cs : List Call) {r : HcpEventRing} {base : ℕ} (q : List HcpEventEntry)
    → Holds r base q
    → run_ring r cs ≡ run_queue (view r q) cs
unfolding run_ring take_dropped
run_ring_refines [] q v = refl
run_ring_refines (pushes e ∷ cs) {r} q v = elim (room_cases v) [
  | inl room ↦ rw (lt→ltb (length q) capacity room) (
      ap (◌∷◌ done)
        (run_ring_refines cs (q ++ e ∷ []) (push-Holds v e room) ∙ (rw (dropped-push v e room))))
  | inr full ↦
      let after = push_full-Holds v e full in
      rw (le→ltb (length q) capacity (omega (arith, full)))
        (ap (◌∷◌ done) (run_ring_refines cs q after.0 ∙ (rw after.1)))
]
run_ring_refines (drains max ∷ cs) {r} q v =
    let after = drain-Holds max q v in
    ap₂ (λ x xs. entries x ∷ xs) after.0
      (run_ring_refines cs (drop max q) after.1 ∙ (rw (dropped-drain max r)))
run_ring_refines (takes_dropped ∷ cs) {r} q v =
    ap (◌∷◌ (losses r.dropped)) (run_ring_refines cs q (take_dropped-Holds v))

get_or-fresh_slots : (n i k : ℕ) → k < n → (get_or (fresh_slots n i) k no_slot).seq ≡ i + k
unfolding fresh_slots
get_or-fresh_slots zero i k h = absurd (omega arith)
get_or-fresh_slots (suc n) i zero h = omega arith
get_or-fresh_slots (suc n) i (suc k) h = omega (arith, get_or-fresh_slots n (i + 1) k (omega arith))

pub empty_ring-Holds : Holds empty_ring 0 []
unfolding empty_ring
empty_ring-Holds = record {
  room = omega arith;
  slots = unfold fresh_slots in refl;
  write = refl;
  read = refl;
  held = λ k h. absurd (omega arith);
  vacant = λ k h below.
      let index : (0 + k) % capacity ≡ k = omega arith in
      rw index (get_or-fresh_slots capacity 0 k below ∙ omega arith);
}

-- From the constructor on, a ring answers every sequence of calls as an empty queue does that
-- keeps the oldest 32 entries and counts the rest.
pub run_empty_ring :
    (cs : List Call) → run_ring empty_ring cs ≡ run_queue (record { items = []; lost = 0 }) cs
unfolding empty_ring
run_empty_ring cs = run_ring_refines cs [] empty_ring-Holds

-- ===== src/Component/Log.antt =====
-- What `drain_events` makes of the ring. Its batches of sixteen are not seen from outside.
use mathlib.Core.List.{map, map-append}
use esphome_hcpbridge.Base.{
  ℕ, zero, suc, ◌+◌, ◌*◌, ◌≤◌, ◌<◌, ◌≡◌, refl, sym, ap, ◌∙◌, subst, arith, Option, some, List, [],
  ◌∷◌, ◌++◌, append-nil, length, ltb, ◌==◌, if◌then◌else◌, Bool-cases, inl, inr, take, drop,
  length-take, length-drop,
}
use esphome_hcpbridge.Events.{HcpEventEntry}
use esphome_hcpbridge.Ring.{HcpEventRing, drain, take_dropped}
use esphome_hcpbridge.Ring.Holds.{Holds}
use esphome_hcpbridge.Ring.Drain.{drain-Holds, dropped-drain}
use esphome_hcpbridge.Component.{LogLine, of_lost, log_event, batch, drain_batches, drain_events}

-- The loop came back with these lines, and left the ring empty.
pub record Logged (r : HcpEventRing) (base : ℕ) (q : List HcpEventEntry)
    (result : Option (List LogLine × HcpEventRing)) : Type 0 where
  pub after : HcpEventRing
  pub returns : result ≡ some (map log_event q, after)
  pub empty : Holds after (base + length q) []
  pub dropped : after.dropped ≡ r.dropped

-- All of it was logged, with a line for what was lost, and the count of that was reset.
pub record IsDrained (r : HcpEventRing) (base : ℕ) (q : List HcpEventEntry)
    (result : Option (List LogLine × HcpEventRing)) : Type 0 where
  pub after : HcpEventRing
  pub returns :
      result
      ≡ some (map log_event q ++ (if r.dropped == 0 then [] else of_lost r.dropped ∷ []), after)
  pub empty : Holds after (base + length q) []
  pub dropped : after.dropped ≡ 0

take-++-drop : (n : ℕ) (q : List HcpEventEntry) → take n q ++ drop n q ≡ q
take-++-drop zero q = refl
take-++-drop (suc n) [] = refl
take-++-drop (suc n) (x ∷ q) = ap (◌∷◌ x) (take-++-drop n q)

drop-all : (n : ℕ) (q : List HcpEventEntry) → length q ≤ n → drop n q ≡ []
drop-all zero [] h = refl
drop-all zero (x ∷ q) h = absurd (omega arith)
drop-all (suc n) [] h = refl
drop-all (suc n) (x ∷ q) h = drop-all n q (omega arith)

take-all : (n : ℕ) (q : List HcpEventEntry) → length q ≤ n → take n q ≡ q
take-all zero [] h = refl
take-all zero (x ∷ q) h = absurd (omega arith)
take-all (suc n) [] h = refl
take-all (suc n) (x ∷ q) h = ap (◌∷◌ x) (take-all n q (omega arith))

-- A batch that is not full was the last.
drain_batches-last :
    (fuel : ℕ) (q : List HcpEventEntry) {r : HcpEventRing} {base : ℕ}
    → Holds r base q
    → length q < batch
    → Logged r base q (drain_batches (suc fuel) r)
unfolding drain_batches
drain_batches-last fuel q {r} {base} v few =
    let d = drain-Holds batch q v in
    let all : take batch q ≡ q = take-all batch q (omega arith) in
    record {
      after = (drain r batch).1;
      returns = ground (arith, d.0, all);
      empty =
          subst (λ (l : List HcpEventEntry). Holds (drain r batch).1 (base + length l) []) all
            (subst
              (λ (l : List HcpEventEntry). Holds (drain r batch).1 (base + length (take batch q)) l)
              (drop-all batch q (omega arith)) d.1);
      dropped = dropped-drain batch r;
    }

drain_batches-more :
    (fuel : ℕ) (q : List HcpEventEntry) {r after : HcpEventRing} {base : ℕ}
    → Holds r base q
    → batch ≤ length q
    → drain_batches fuel (drain r batch).1 ≡ some (map log_event (drop batch q), after)
    → drain_batches (suc fuel) r ≡ some (map log_event q, after)
unfolding drain_batches
drain_batches-more fuel q {r} {after} v full rest =
    let d = drain-Holds batch q v in
    let long : length (drain r batch).0 ≡ 16 = ap length d.0 ∙ omega (arith, length-take batch q) in
    let whole : map log_event (drain r batch).0 ++ map log_event (drop batch q) ≡ map log_event q =
      rw d.0 (
        sym (map-append log_event (take batch q) (drop batch q))
        ∙ ap (map log_event) (take-++-drop batch q)) in
    rw (rest) (ground (arith, long, whole))

more-Logged :
    (fuel : ℕ) (q : List HcpEventEntry) {r : HcpEventRing} {base : ℕ}
    → Holds r base q
    → batch ≤ length q
    → Logged
        (drain r batch).1
        (base + length (take batch q))
        (drop batch q)
        (drain_batches fuel (drain r batch).1)
    → Logged r base q (drain_batches (suc fuel) r)
more-Logged fuel q {r} {base} v full rest = record {
  after = rest.after;
  returns = drain_batches-more fuel q v full rest.returns;
  empty =
      subst (λ (n : ℕ). Holds rest.after n [])
        (omega (arith, length-take batch q, length-drop batch q)) rest.empty;
  dropped = rest.dropped ∙ dropped-drain batch r;
}

drain_batches-Logged :
    (fuel : ℕ) (q : List HcpEventEntry) {r : HcpEventRing} {base : ℕ}
    → Holds r base q
    → length q < batch * fuel
    → Logged r base q (drain_batches fuel r)
drain_batches-Logged zero q v enough = absurd (omega arith)
drain_batches-Logged (suc fuel) q {r} {base} v enough = elim (Bool-cases (ltb (length q) batch)) [
  | inl few ↦ drain_batches-last fuel q v (ground arith)
  | inr full ↦ more-Logged fuel q v (ground arith) (
      drain_batches-Logged fuel (drop batch q) (drain-Holds batch q v).1
        (ground (arith, length-drop batch q)))
]

Logged-IsDrained :
    (q : List HcpEventEntry) {r : HcpEventRing} {base : ℕ}
    → Logged r base q (drain_batches 3 r)
    → IsDrained r base q (drain_events r)
unfolding take_dropped drain_events
Logged-IsDrained q {r} {base} logged = record {
  after = record logged.after { dropped = 0 };
  returns =
      rw (logged.returns, drain_events)
        (ground (arith, logged.dropped, append-nil (map log_event q)));
  empty = record {
    room = logged.empty.room;
    slots = logged.empty.slots;
    write = logged.empty.write;
    read = logged.empty.read;
    held = logged.empty.held;
    vacant = logged.empty.vacant;
  };
  dropped = refl;
}

-- Of a ring that holds some entries, `drain_events` returns, and it logs one line for each of
-- them, oldest first, as if there were no batches, then a line with the number of those lost if
-- there were any; the ring is left empty, and its count of losses at zero.
pub drain_events-Holds :
    (q : List HcpEventEntry) {r : HcpEventRing} {base : ℕ}
    → Holds r base q
    → IsDrained r base q (drain_events r)
drain_events-Holds q v = Logged-IsDrained q (drain_batches-Logged 3 q v (omega (arith, v.room)))

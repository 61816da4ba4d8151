-- ===== src/Ring/Drain.antt =====
-- `drain` takes the entries of a ring in order, and stops at the first slot not handed over.
use native.Mathlib.Nat.{add-zero}
use esphome_hcpbridge.Base.{
  ℕ, zero, suc, ◌+◌, ◌%◌, ◌≤◌, ◌<◌, ◌≡◌, refl, ap, subst, ◌∙◌, List, [], ◌∷◌, arith, ◌==◌, u32,
  length, get_or, take, drop, length-set, get_or-set_self, get_or-set_ne, ==→eq, Bool-cases, inl,
  inr,
}
use esphome_hcpbridge.Events.{HcpEventEntry, no_entry}
use esphome_hcpbridge.Ring.{Slot, HcpEventRing, capacity, slot_at, no_slot, drain, hand_back}
use esphome_hcpbridge.Ring.Holds.{Holds, place}

module _ {r : HcpEventRing} {base : ℕ} {x : HcpEventEntry} {q : List HcpEventEntry}
    (v : Holds r base (x ∷ q)) where
  first_place : slot_at r r.read ≡ record { seq = u32 (base + 1); entry = x }
  first_place =
      let index : r.read % capacity ≡ (base + 0) % capacity = omega (arith, v.read) in
      rw index
        (v.held 0 (omega arith) ∙ ap (λ (s : ℕ). record { seq = s; entry = x }) (omega arith))

  hand_back-place_old :
      (k : ℕ) → suc k < capacity → place (hand_back r) (base + 1) k ≡ place r base (suc k)
  unfolding hand_back
  hand_back-place_old k below =
      get_or-set_ne r.slots (r.read % capacity) ((base + 1 + k) % capacity) _ no_slot
        (omega (arith, v.read))
      ∙ ap (λ (i : ℕ). get_or r.slots i no_slot) (omega arith)

  hand_back-place_last : (place (hand_back r) (base + 1) 31).seq ≡ u32 (base + 1 + 31)
  unfolding hand_back
  hand_back-place_last =
      let index : (base + 1 + 31) % capacity ≡ r.read % capacity = omega (arith, v.read) in
      rw index (
        ap (λ (s : Slot). s.seq)
          (get_or-set_self r.slots (r.read % capacity) _ no_slot (omega (arith, v.slots)))
        ∙ omega (arith, v.read))

  hand_back_vacant :
      (k : ℕ)
      → length q ≤ k
      → k < capacity
      → (place (hand_back r) (base + 1) k).seq ≡ u32 (base + 1 + k)
  hand_back_vacant k h below = elim (Bool-cases (k == 31)) [
    | inl last ↦ rw (==→eq k 31 last) hand_back-place_last
    | inr before ↦
        ap (λ (s : Slot). s.seq) (hand_back-place_old k (ground arith))
        ∙ v.vacant (suc k) (omega arith) (ground arith)
        ∙ omega arith
  ]

  -- What is left once the entry at the read position is taken.
  pub hand_back-Holds : Holds (hand_back r) (base + 1) q
  unfolding hand_back
  hand_back-Holds = record {
    room = omega (arith, v.room);
    slots = length-set r.slots (r.read % capacity) _ ∙ v.slots;
    write = omega (arith, v.write);
    read = omega (arith, v.read);
    held = λ k h.
        hand_back-place_old k (omega (arith, v.room))
        ∙ v.held (suc k) (omega arith)
        ∙ ap (λ (s : ℕ). record { seq = s; entry = get_or q k no_entry }) (omega arith);
    vacant = hand_back_vacant;
  }

  drain-cons :
      (max : ℕ) → drain r (suc max) ≡ (x ∷ (drain (hand_back r) max).0, (drain (hand_back r) max).1)
  unfolding drain
  drain-cons max =
      ground (
        arith,
        ap (λ (s : Slot). s.seq) first_place,
        ap (λ (s : Slot). s.entry) first_place,
        v.read,
      )

drain-nil : {r : HcpEventRing} {base : ℕ} (max : ℕ) → Holds r base [] → drain r max ≡ ([], r)
unfolding drain
drain-nil zero v = refl
drain-nil {r} {base} (suc max) v =
    let index : r.read % capacity ≡ (base + 0) % capacity = omega (arith, v.read) in
    ground (
      arith,
      ap (λ (i : ℕ). (get_or r.slots i no_slot).seq) index,
      v.vacant 0 (omega arith) (omega arith),
      v.read,
    )

-- `drain` returns the oldest entries, as many as there are or were asked for, and leaves the rest
-- in the ring.
pub drain-Holds :
    (max : ℕ) (q : List HcpEventEntry) {r : HcpEventRing} {base : ℕ}
    → Holds r base q
    → ((drain r max).0 ≡ take max q)
      × Holds (drain r max).1 (base + length (take max q)) (drop max q)
drain-Holds zero q {r} {base} v = unfold drain in rw add-zero (refl, v)
drain-Holds (suc max) [] {r} {base} v = rw (drain-nil (suc max) v, add-zero) (refl, v)
drain-Holds (suc max) (x ∷ q) {r} {base} v =
    let rest = drain-Holds max q (hand_back-Holds v) in
    rw (drain-cons v max) (
      ap (◌∷◌ x) rest.0,
      subst (λ b. Holds (drain (hand_back r) max).1 b (drop max q)) (omega arith) rest.1,
    )

-- Reading counts no losses.
pub dropped-drain : (max : ℕ) (r : HcpEventRing) → (drain r max).1.dropped ≡ r.dropped
unfolding drain
dropped-drain zero r = refl
dropped-drain (suc max) r = ground (arith, dropped-drain max (hand_back r))

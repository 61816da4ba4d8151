-- ===== src/Ring/Tasks/Kept.antt =====
-- What the slots of the ring hold while tasks are between two steps: `gone` entries have been handed
-- back, and the places of `claims` have been taken, by numbers that do not wrap.
use esphome_hcpbridge.Base.{
  ℕ, ◌+◌, ◌%◌, ◌≤◌, ◌<◌, ◌≡◌, ◌≢◌, sym, ap, ◌∙◌, ◌⊎◌, inl, inr, arith, List, [], ◌∷◌, ◌++◌, length,
  get_or, set, length-append, length-set, get_or-set_self, get_or-set_ne, get_or-append_left,
  get_or-append_right, Bool-cases, ==→eq, ◌==◌,
}
use esphome_hcpbridge.Events.{HcpEventEntry, no_entry}
use esphome_hcpbridge.Ring.{Slot, no_slot, capacity}

abbrev pub at_place : List Slot → ℕ → Slot
at_place slots p = get_or slots (p % capacity) no_slot

-- The entry of place p is complete.
pub record Handed (s : Slot) (p : ℕ) (claims : List HcpEventEntry) : Type 0 where
  pub seq : s.seq ≡ p + 1
  pub below : p < length claims
  pub entry : s.entry ≡ get_or claims p no_entry

pub record IsKept (slots : List Slot) (gone : ℕ) (claims : List HcpEventEntry) : Type 0 where
  pub size : length slots ≡ capacity
  pub room : length claims ≤ gone + capacity
  pub behind : gone ≤ length claims
  pub each :
      (p : ℕ)
      → gone ≤ p
      → p < gone + capacity
      → ((at_place slots p).seq ≡ p) ⊎ Handed (at_place slots p) p claims

-- A task has claimed place p for e and has not handed it over.
pub record Held (slots : List Slot) (gone : ℕ) (claims : List HcpEventEntry) (e : HcpEventEntry)
    (p : ℕ) : Type 0 where
  pub after : gone ≤ p
  pub below : p < length claims
  pub seq : (at_place slots p).seq ≡ p
  pub claimed : get_or claims p no_entry ≡ e

pub Handed-append :
    {s : Slot} {p : ℕ} {claims : List HcpEventEntry} (e : HcpEventEntry)
    → Handed s p claims
    → Handed s p (claims ++ e ∷ [])
Handed-append {s} {p} {claims} e h = record {
  seq = h.seq;
  below = omega (arith, h.below, length-append claims (e ∷ []));
  entry = h.entry ∙ sym (get_or-append_left claims (e ∷ []) p no_entry h.below);
}

-- A place is claimed.
pub claim-IsKept :
    {slots : List Slot} {gone : ℕ} {claims : List HcpEventEntry} (e : HcpEventEntry)
    → IsKept slots gone claims
    → length claims < gone + capacity
    → IsKept slots gone (claims ++ e ∷ [])
claim-IsKept {slots} {gone} {claims} e k room = record {
  size = k.size;
  room = omega (arith, length-append claims (e ∷ []));
  behind = omega (arith, k.behind, length-append claims (e ∷ []));
  each = λ p h l. elim (k.each p h l) [
    | inl vacant ↦ inl vacant
    | inr done ↦ inr (Handed-append e done)
  ];
}

pub claim-Held :
    {slots : List Slot} {gone : ℕ} {claims : List HcpEventEntry} {x : HcpEventEntry} {p : ℕ}
    (e : HcpEventEntry)
    → Held slots gone claims x p
    → Held slots gone (claims ++ e ∷ []) x p
claim-Held {claims = claims} {p = p} e h = record {
  after = h.after;
  below = omega (arith, h.below, length-append claims (e ∷ []));
  seq = h.seq;
  claimed = get_or-append_left claims (e ∷ []) p no_entry h.below ∙ h.claimed;
}

-- The claim itself.
pub claimed-Held :
    {slots : List Slot} {gone : ℕ} {claims : List HcpEventEntry} (e : HcpEventEntry)
    → IsKept slots gone claims
    → length claims < gone + capacity
    → Held slots gone (claims ++ e ∷ []) e (length claims)
claimed-Held {slots} {gone} {claims} e k room = record {
  after = k.behind;
  below = omega (arith, length-append claims (e ∷ []));
  seq = elim (k.each (length claims) k.behind room) [
    | inl vacant ↦ vacant
    | inr done ↦ absurd (omega (arith, done.below))
  ];
  claimed = get_or-append_right claims (e ∷ []) (length claims) 0 no_entry (omega arith);
}

module _ {slots : List Slot} {gone : ℕ} {claims : List HcpEventEntry} (p : ℕ) (s : Slot)
    (k : IsKept slots gone claims) (after : gone ≤ p) (below : p < gone + capacity) where
  pub at_place-set_self : at_place (set slots (p % capacity) s) p ≡ s
  at_place-set_self = get_or-set_self slots (p % capacity) s no_slot (omega (arith, k.size))

  pub at_place-set_ne :
      (q : ℕ)
      → gone ≤ q
      → q < gone + capacity
      → q ≢ p
      → at_place (set slots (p % capacity) s) q ≡ at_place slots q
  at_place-set_ne q h l ne =
      get_or-set_ne slots (p % capacity) (q % capacity) s no_slot (omega (arith, after, below))

  -- A slot within the window is written.
  pub set-IsKept : (s.seq ≡ p) ⊎ Handed s p claims → IsKept (set slots (p % capacity) s) gone claims
  set-IsKept ok = record {
    size = length-set slots (p % capacity) s ∙ k.size;
    room = k.room;
    behind = k.behind;
    each = λ q h l. elim (Bool-cases (q == p)) [
      | inl same ↦ let here : q ≡ p = ==→eq q p same in rw (here, at_place-set_self) ok
      | inr other ↦ rw (at_place-set_ne q h l (ground (arith, other))) (k.each q h l)
    ];
  }

  pub set-Held :
      {e : HcpEventEntry} (q : ℕ)
      → q ≢ p
      → Held slots gone claims e q
      → Held (set slots (p % capacity) s) gone claims e q
  set-Held q ne h = record {
    after = h.after;
    below = h.below;
    seq =
        ap (λ (x : Slot). x.seq) (at_place-set_ne q h.after (omega (arith, h.below, k.room)) ne)
        ∙ h.seq;
    claimed = h.claimed;
  }

module _ {slots : List Slot} {gone : ℕ} {claims : List HcpEventEntry} (s : Slot)
    (k : IsKept slots gone claims) (done : Handed (at_place slots gone) gone claims)
    (next : s.seq ≡ gone + capacity) where
  -- The slot of the oldest entry is handed back.
  pub release-IsKept : IsKept (set slots (gone % capacity) s) (gone + 1) claims
  release-IsKept = record {
    size = length-set slots (gone % capacity) s ∙ k.size;
    room = omega (arith, k.room);
    behind = omega (arith, done.below);
    each = λ q h l. elim (Bool-cases (q == gone + capacity)) [
      | inl last ↦
          let here : q ≡ gone + capacity = ==→eq q (gone + capacity) last in
          let index : q % capacity ≡ gone % capacity = omega (arith, here) in
          inl (
            rw (index, get_or-set_self slots (gone % capacity) s no_slot (omega (arith, k.size)))
              (next ∙ sym here))
      | inr other ↦
          rw
            (get_or-set_ne slots (gone % capacity) (q % capacity) s no_slot
              (ground (arith, other, h, l)))
            (k.each q (omega (arith, h)) (ground (arith, other, l)))
    ];
  }

  pub release-at_place :
      {e : HcpEventEntry} (q : ℕ)
      → Held slots gone claims e q
      → at_place (set slots (gone % capacity) s) q ≡ at_place slots q
  release-at_place q h =
      let apart : q ≢ gone =
        λ same. absurd (omega (arith, ap (λ i. (at_place slots i).seq) same, h.seq, done.seq)) in
      get_or-set_ne slots (gone % capacity) (q % capacity) s no_slot
        (omega (arith, h.after, h.below, k.room, apart))

  pub release-Held :
      {e : HcpEventEntry} (q : ℕ)
      → Held slots gone claims e q
      → Held (set slots (gone % capacity) s) (gone + 1) claims e q
  release-Held q h =
      let apart : q ≢ gone =
        λ same. absurd (omega (arith, ap (λ i. (at_place slots i).seq) same, h.seq, done.seq)) in
      record {
        after = omega (arith, h.after, apart);
        below = h.below;
        seq = ap (λ (x : Slot). x.seq) (release-at_place q h) ∙ h.seq;
        claimed = h.claimed;
      }

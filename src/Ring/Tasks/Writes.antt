-- ===== src/Ring/Tasks/Writes.antt =====
-- Each step of a task in `push`.
use esphome_hcpbridge.Base.{
  ℕ, ◌+◌, ◌%◌, ◌≤◌, ◌<◌, ◌^◌, ◌≡◌, ◌≢◌, refl, sym, ap, ◌∙◌, subst, ◌⊎◌, inl, inr, arith, Bool,
  Bool-cases, not, ◌||◌, List, [], ◌∷◌, ◌++◌, append-nil, length, length-append, get_or, set, ◌==◌,
  ==→eq, sub32, u32,
}
use esphome_hcpbridge.Events.{HcpEventEntry}
use esphome_hcpbridge.Ring.{Slot, no_slot, capacity, slot_at, is_negative}
use esphome_hcpbridge.Ring.Tasks.{
  Writer, outside, loading, looking, trying, dropping, filling, handing, System, write_step,
  after_write,
}
use esphome_hcpbridge.Ring.Tasks.Kept.{
  at_place, Handed, Held, claim-IsKept, claimed-Held, at_place-set_self, set-IsKept,
}
use esphome_hcpbridge.Ring.Tasks.Steps.{
  WriterOk, HoldsPlace, ahead, IsConsistent, Moves, moves-IsConsistent, claim-WriterOk,
  claim-ReaderOk, set-WriterOk, set-ReaderOk,
}

abbrev gone : System → ℕ
gone s = s.ring.read + ahead s.reader

-- A place that was not claimed is held by nobody.
unheld :
    (slots : List Slot) (n : ℕ) (claims : List HcpEventEntry) (w : Writer) (p : ℕ)
    → WriterOk slots n claims w
    → p ≡ length claims
    → HoldsPlace w p
    → ⊥
unfolding WriterOk HoldsPlace
unheld slots n claims (filling e pos) p ok new h = omega (arith, ok.below, new, h)
unheld slots n claims (handing e pos) p ok new h = omega (arith, ok.0.below, new, h)
unheld slots n claims outside p ok new h = h
unheld slots n claims (loading e) p ok new h = h
unheld slots n claims (looking e pos) p ok new h = h
unheld slots n claims (trying e pos) p ok new h = h
unheld slots n claims dropping p ok new h = h

module _ (s : System) (i : ℕ) (c : IsConsistent s) where
  -- What the task knows and holds, by where it stands.
  knows_at : (w : Writer) → s.writer i ≡ w → WriterOk s.ring.slots (gone s) s.claims w
  knows_at w at = subst (λ (x : Writer). WriterOk s.ring.slots (gone s) s.claims x) at (c.writers i)

  holds_at : (w : Writer) (p : ℕ) → s.writer i ≡ w → HoldsPlace w p → HoldsPlace (s.writer i) p
  holds_at w p at h = subst (λ (x : Writer). HoldsPlace x p) (sym at) h

  -- A step that writes to no slot and claims nothing.
  quiet :
      (x : Writer) (lost : ℕ)
      → WriterOk s.ring.slots (gone s) s.claims x
      → ((p : ℕ) → HoldsPlace x p → ⊥)
      → Moves s i x (record s.ring { dropped = lost }) (s.claims ++ [])
  quiet x lost ok free =
      subst (λ (l : List HcpEventEntry). Moves s i x (record s.ring { dropped = lost }) l)
        (sym (append-nil s.claims))
        (record {
          kept = c.kept;
          write = c.write;
          read = refl;
          mover = ok;
          others = λ j h. c.writers j;
          apart = λ j p h l m. free p l;
          reader = c.reader;
        })

  -- A place that is free when it is looked at lies within the window.
  free_place :
      (pos : ℕ)
      → length s.claims + 64 < 2 ^ 32
      → pos ≤ length s.claims
      → sub32 (slot_at s.ring pos).seq pos ≡ 0
      → pos < gone s + capacity
  free_place pos small known free = elim (Bool-cases (pos == gone s + capacity)) [
    | inl full ↦
        let here : pos ≡ gone s + capacity = ==→eq pos (gone s + capacity) full in
        let index : pos % capacity ≡ gone s % capacity = omega (arith, here) in
        let same : (slot_at s.ring pos).seq ≡ (at_place s.ring.slots (gone s)).seq =
          ap (λ (n : ℕ). (get_or s.ring.slots n no_slot).seq) index in
        elim (c.kept.each (gone s) (omega arith) (omega arith)) [
          | inl vacant ↦ absurd (omega (arith, same, vacant, free, here, small, known, c.kept.room))
          | inr done ↦ absurd (omega (arith, same, done.seq, free, here, small, known, c.kept.room))
        ]
    | inr other ↦ ground (arith, other, known, c.kept.room)
  ]

  -- A slot that the task holds is written.
  write_slot :
      (x : Writer) (e : HcpEventEntry) (pos : ℕ) (new : Slot)
      → HoldsPlace (s.writer i) pos
      → Held s.ring.slots (gone s) s.claims e pos
      → (new.seq ≡ pos) ⊎ Handed new pos s.claims
      → WriterOk (set s.ring.slots (pos % capacity) new) (gone s) s.claims x
      → ((p : ℕ) → HoldsPlace x p → pos ≡ p)
      → Moves s i x
          (record s.ring { slots = set s.ring.slots (pos % capacity) new })
          (s.claims ++ [])
  write_slot x e pos new mine held ok knows only =
      let below : pos < gone s + capacity = omega (arith, held.below, c.kept.room) in
      let apart : (j : ℕ) → j ≢ i → HoldsPlace (s.writer j) pos → ⊥ =
        λ j ne other. ne (c.apart j i pos other mine) in
      subst
        (λ (l : List HcpEventEntry).
          Moves s i x (record s.ring { slots = set s.ring.slots (pos % capacity) new }) l)
        (sym (append-nil s.claims))
        (record {
          kept = set-IsKept pos new c.kept held.after below ok;
          write = c.write;
          read = refl;
          mover = knows;
          others = λ j h. set-WriterOk pos new c.kept held (s.writer j) (apart j h) (c.writers j);
          apart = λ j p h l m.
              apart j h (subst (λ (q : ℕ). HoldsPlace (s.writer j) q) (sym (only p l)) m);
          reader = set-ReaderOk pos new c.kept held s.ring.read s.out s.reader refl c.reader;
        })

  claim :
      (e : HcpEventEntry) (pos : ℕ)
      → length s.claims + 64 < 2 ^ 32
      → s.ring.write ≡ pos
      → pos < gone s + capacity
      → Moves s i (filling e pos) (record s.ring { write = u32 (pos + 1) }) (s.claims ++ e ∷ [])
  unfolding WriterOk HoldsPlace
  claim e pos small here room =
      let last : pos ≡ length s.claims = sym here ∙ c.write in
      record {
        kept = claim-IsKept e c.kept (omega (arith, last, room));
        write = omega (arith, last, small, length-append s.claims (e ∷ []));
        read = refl;
        mover =
            subst (λ (n : ℕ). Held s.ring.slots (gone s) (s.claims ++ e ∷ []) e n) (sym last)
              (claimed-Held e c.kept (omega (arith, last, room)));
        others = λ j h. claim-WriterOk s.ring.slots (gone s) s.claims e (s.writer j) (c.writers j);
        apart = λ j p h l m.
            unheld s.ring.slots (gone s) s.claims (s.writer j) p (c.writers j)
              (omega (arith, l, last)) m;
        reader =
            claim-ReaderOk s.ring.slots s.ring.read s.claims s.out e s.reader c.kept.behind
              c.reader;
      }

  -- The place that the task holds, by where it stands.
  step-Moves :
      (fails : Bool) (w : Writer)
      → s.writer i ≡ w
      → length s.claims + 64 < 2 ^ 32
      → let r = write_step fails s.ring w in Moves s i r.1 r.0 (s.claims ++ r.2)
  unfolding write_step WriterOk HoldsPlace
  step-Moves fails outside at small = quiet outside s.ring.dropped tt (λ p h. h)
  step-Moves fails (loading e) at small =
      quiet (looking e s.ring.write) s.ring.dropped (omega (arith, c.write)) (λ p h. h)
  step-Moves fails (looking e pos) at small =
      let known : pos ≤ length s.claims = knows_at (looking e pos) at in
      let free = sub32 (slot_at s.ring pos).seq pos in
      elim (Bool-cases (free == 0)) [
        | inl zero_apart ↦ rw zero_apart (
            quiet (trying e pos) s.ring.dropped
              (known, free_place pos small known (==→eq free 0 zero_apart)) (λ p h. h))
        | inr taken ↦ elim (Bool-cases (is_negative free)) [
          | inl full ↦ rw (taken, full) (quiet dropping s.ring.dropped tt (λ p h. h))
          | inr behind ↦ rw (taken, behind) (quiet (loading e) s.ring.dropped tt (λ p h. h))
        ]
      ]
  step-Moves fails (trying e pos) at small =
      elim (Bool-cases (fails || not (s.ring.write == pos))) [
        | inl lost ↦
            rw lost
              (quiet (looking e s.ring.write) s.ring.dropped (omega (arith, c.write)) (λ p h. h))
        | inr won ↦ rw won (claim e pos small (ground (arith, won)) (knows_at (trying e pos) at).1)
      ]
  step-Moves fails dropping at small = quiet outside (u32 (s.ring.dropped + 1)) tt (λ p h. h)
  step-Moves fails (filling e pos) at small =
      let held : Held s.ring.slots (gone s) s.claims e pos = knows_at (filling e pos) at in
      let below : pos < gone s + capacity = omega (arith, held.below, c.kept.room) in
      let new : Slot = record { seq = (slot_at s.ring pos).seq; entry = e } in
      write_slot (handing e pos) e pos new (holds_at (filling e pos) pos at refl) held
        (inl held.seq)
        (
          record {
            after = held.after;
            below = held.below;
            seq =
                ap (λ (y : Slot). y.seq) (at_place-set_self pos new c.kept held.after below)
                ∙ held.seq;
            claimed = held.claimed;
          },
          ap (λ (y : Slot). y.entry) (at_place-set_self pos new c.kept held.after below),
        )
        (λ p h. h)
  step-Moves fails (handing e pos) at small =
      let knows = knows_at (handing e pos) at in
      let held : Held s.ring.slots (gone s) s.claims e pos = knows.0 in
      write_slot outside e pos (record { seq = u32 (pos + 1); entry = (slot_at s.ring pos).entry })
        (holds_at (handing e pos) pos at refl) held
        (inr (record {
          seq = omega (arith, held.below, small);
          below = held.below;
          entry = knows.1 ∙ sym held.claimed;
        }))
        tt (λ p h. absurd h)

-- A step of a task in `push` keeps everything.
pub after_write-IsConsistent :
    (s : System) (fails : Bool) (i : ℕ)
    → IsConsistent s
    → length s.claims + 64 < 2 ^ 32
    → IsConsistent (after_write s fails i)
after_write-IsConsistent s fails i c small =
    let r = write_step fails s.ring (s.writer i) in
    moves-IsConsistent s i r.1 r.0 (s.claims ++ r.2) c
      (step-Moves s i c fails (s.writer i) refl small)

-- ===== src/Ring/Tasks/Reads.antt =====
-- Each step of the reader.
use esphome_hcpbridge.Base.{
  ℕ, zero, suc, ◌+◌, ◌%◌, ◌<◌, ◌^◌, ◌≡◌, refl, sym, ap, ◌∙◌, subst, inl, inr, arith, Bool-cases,
  List, [], ◌∷◌, ◌++◌, append-nil, length, get_or, set, take, ◌==◌, ==→eq, sub32, u32,
}
use esphome_hcpbridge.Events.{HcpEventEntry, no_entry}
use esphome_hcpbridge.Ring.{Slot, capacity, slot_at}
use esphome_hcpbridge.Ring.Tasks.{
  Writer, outside, loading, Reader, waiting, copying, releasing, advancing, System, read_step,
  filling, handing, looking, trying, dropping,
}
use esphome_hcpbridge.Ring.Tasks.Kept.{
  at_place, Handed, IsKept, release-IsKept, release-Held, release-at_place,
}
use esphome_hcpbridge.Ring.Tasks.Steps.{WriterOk, ReaderOk, ahead, IsConsistent}

take-suc :
    (n : ℕ) (xs : List HcpEventEntry)
    → n < length xs
    → take n xs ++ get_or xs n no_entry ∷ [] ≡ take (n + 1) xs
take-suc zero [] h = absurd (omega arith)
take-suc zero (x ∷ xs) h = refl
take-suc (suc n) [] h = absurd (omega arith)
take-suc (suc n) (x ∷ xs) h =
    let length_of : suc (n + 1) ≡ suc n + 1 = omega arith in
    ap (◌∷◌ x) (take-suc n xs (omega arith)) ∙ ap (λ (k : ℕ). take k (x ∷ xs)) length_of

-- What holds of a system whose reader stands here.
pub record Stands (s : System) (r : Reader) : Type 0 where
  pub kept : IsKept s.ring.slots (s.ring.read + ahead r) s.claims
  pub writers : (i : ℕ) → WriterOk s.ring.slots (s.ring.read + ahead r) s.claims (s.writer i)
  pub reader : ReaderOk s.ring.slots s.ring.read s.claims s.out r

pub stands : (s : System) → IsConsistent s → Stands s s.reader
stands s c = record { kept = c.kept; writers = c.writers; reader = c.reader }

-- The system after the reader's step.
abbrev after_reading : System → Reader → System
after_reading s r =
    let t = read_step s.ring r in record s { ring = t.0; reader = t.1; out = s.out ++ t.2 }

-- Nothing but the reader moves.
stay :
    (s : System) (old r : Reader) (out : List HcpEventEntry)
    → IsConsistent s
    → Stands s old
    → s.ring.read + ahead old ≡ s.ring.read + ahead r
    → ReaderOk s.ring.slots s.ring.read s.claims out r
    → IsConsistent (record s { reader = r; out = out })
stay s old r out c k same ok = record {
  kept = subst (λ (n : ℕ). IsKept s.ring.slots n s.claims) same k.kept;
  write = c.write;
  writers =
      subst (λ (n : ℕ). (i : ℕ) → WriterOk s.ring.slots n s.claims (s.writer i)) same k.writers;
  apart = c.apart;
  reader = ok;
}

Handed-at_read :
    (s : System)
    → Stands s waiting
    → length s.claims + 64 < 2 ^ 32
    → sub32 (slot_at s.ring s.ring.read).seq (u32 (s.ring.read + 1)) ≡ 0
    → Handed (at_place s.ring.slots s.ring.read) s.ring.read s.claims
unfolding ahead
Handed-at_read s k small complete = elim (k.kept.each s.ring.read (omega arith) (omega arith)) [
  | inl vacant ↦ absurd (omega (arith, vacant, complete, small, k.kept.behind))
  | inr done ↦ done
]

release-WriterOk :
    (slots : List Slot) (gone : ℕ) (claims : List HcpEventEntry) (new : Slot)
    → IsKept slots gone claims
    → Handed (at_place slots gone) gone claims
    → new.seq ≡ gone + capacity
    → (w : Writer) → WriterOk slots gone claims w
    → WriterOk (set slots (gone % capacity) new) (gone + 1) claims w
unfolding WriterOk
release-WriterOk slots gone claims new k done next outside ok = tt
release-WriterOk slots gone claims new k done next (loading e) ok = tt
release-WriterOk slots gone claims new k done next (looking e pos) ok = ok
release-WriterOk slots gone claims new k done next (trying e pos) ok = (ok.0, omega (arith, ok.1))
release-WriterOk slots gone claims new k done next dropping ok = tt
release-WriterOk slots gone claims new k done next (filling e pos) ok =
    release-Held new k done next pos ok
release-WriterOk slots gone claims new k done next (handing e pos) ok = (
  release-Held new k done next pos ok.0,
  ap (λ (y : Slot). y.entry) (release-at_place new k done next pos ok.0) ∙ ok.1,
)

-- The slot of the entry that was copied goes back to the tasks.
releases :
    (s : System) (out : List HcpEventEntry)
    → IsConsistent s
    → Stands s releasing
    → length s.claims + 64 < 2 ^ 32
    → out ≡ take (s.ring.read + 1) s.claims
    → let new : Slot = record {
      seq = u32 (s.ring.read + capacity);
      entry = (slot_at s.ring s.ring.read).entry;
    } in
      IsConsistent (record s {
        ring = record s.ring { slots = set s.ring.slots (s.ring.read % capacity) new };
        reader = advancing;
        out = out;
      })
unfolding ReaderOk ahead
releases s out c k small taken =
    let new : Slot = record {
      seq = u32 (s.ring.read + capacity);
      entry = (slot_at s.ring s.ring.read).entry;
    } in
    let flat : s.ring.read + 0 ≡ s.ring.read = omega arith in
    let kept = subst (λ (n : ℕ). IsKept s.ring.slots n s.claims) flat k.kept in
    let writers =
      subst (λ (n : ℕ). (i : ℕ) → WriterOk s.ring.slots n s.claims (s.writer i)) flat k.writers in
    let next : u32 (s.ring.read + capacity) ≡ s.ring.read + capacity =
      omega (arith, small, k.kept.behind) in
    record {
      kept = release-IsKept new kept k.reader.0 next;
      write = c.write;
      writers = λ i.
          release-WriterOk s.ring.slots s.ring.read s.claims new kept k.reader.0 next (s.writer i)
            (writers i);
      apart = c.apart;
      reader = taken;
    }

-- The reader counts it.
advances :
    (s : System) (out : List HcpEventEntry)
    → IsConsistent s
    → Stands s advancing
    → length s.claims + 64 < 2 ^ 32
    → out ≡ take (s.ring.read + 1) s.claims
    → IsConsistent (record s {
      ring = record s.ring { read = u32 (s.ring.read + 1) };
      reader = waiting;
      out = out;
    })
unfolding ReaderOk ahead
advances s out c k small taken =
    let word : u32 (s.ring.read + 1) ≡ s.ring.read + 1 = omega (arith, small, k.kept.behind) in
    let flat : s.ring.read + 1 ≡ u32 (s.ring.read + 1) + 0 = omega (arith, word) in
    record {
      kept = subst (λ (n : ℕ). IsKept s.ring.slots n s.claims) flat k.kept;
      write = c.write;
      writers =
          subst (λ (n : ℕ). (i : ℕ) → WriterOk s.ring.slots n s.claims (s.writer i)) flat k.writers;
      apart = c.apart;
      reader = taken ∙ ap (λ (n : ℕ). take n s.claims) (sym word);
    }

pub read-IsConsistent :
    (s : System) (r : Reader)
    → s.reader ≡ r
    → IsConsistent s
    → Stands s r
    → length s.claims + 64 < 2 ^ 32
    → IsConsistent (after_reading s r)
unfolding read_step ReaderOk ahead
read-IsConsistent s waiting at c k small =
    elim (Bool-cases (sub32 (slot_at s.ring s.ring.read).seq (u32 (s.ring.read + 1)) == 0)) [
      | inl complete ↦ rw complete (
          stay s waiting copying (s.out ++ []) c k refl
            (Handed-at_read s k small (==→eq _ 0 complete), append-nil s.out ∙ k.reader))
      | inr open_place ↦
          rw open_place
            (stay s waiting waiting (s.out ++ []) c k refl (append-nil s.out ∙ k.reader))
    ]
read-IsConsistent s copying at c k small =
    let entry : (slot_at s.ring s.ring.read).entry ≡ get_or s.claims s.ring.read no_entry =
      k.reader.0.entry in
    stay s copying releasing _ c k refl
      (k.reader.0, rw (k.reader.1, entry) (take-suc s.ring.read s.claims k.reader.0.below))
read-IsConsistent s releasing at c k small =
    releases s (s.out ++ []) c k small (append-nil s.out ∙ k.reader.1)
read-IsConsistent s advancing at c k small =
    advances s (s.out ++ []) c k small (append-nil s.out ∙ k.reader)

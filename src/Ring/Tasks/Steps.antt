-- ===== src/Ring/Tasks/Steps.antt =====
-- What holds of every task, and that a step of a task in `push` keeps it.
use esphome_hcpbridge.Base.{
  ℕ, zero, suc, ◌+◌, ◌%◌, ◌≤◌, ◌<◌, ◌≡◌, ◌≢◌, refl, sym, ap, ◌∙◌, subst, inl, inr, arith,
  Bool-cases, List, [], ◌∷◌, ◌++◌, length, length-append, set, take, ◌==◌, ==→eq,
}
use esphome_hcpbridge.Events.{HcpEventEntry}
use esphome_hcpbridge.Ring.{Slot, HcpEventRing, capacity}
use esphome_hcpbridge.Ring.Tasks.{
  Writer, outside, loading, looking, trying, dropping, filling, handing, Reader, waiting, copying,
  releasing, advancing, System, moved,
}
use esphome_hcpbridge.Ring.Tasks.Kept.{
  at_place, Handed, IsKept, Held, Handed-append, claim-Held, at_place-set_ne, set-Held,
}

-- What a task in `push` knows.
unfoldable pub WriterOk : List Slot → ℕ → List HcpEventEntry → Writer → Type 0
WriterOk slots gone claims outside = Unit
WriterOk slots gone claims (loading e) = Unit
WriterOk slots gone claims (looking e pos) = pos ≤ length claims
WriterOk slots gone claims (trying e pos) = (pos ≤ length claims) × (pos < gone + capacity)
WriterOk slots gone claims dropping = Unit
WriterOk slots gone claims (filling e pos) = Held slots gone claims e pos
WriterOk slots gone claims (handing e pos) =
    Held slots gone claims e pos × ((at_place slots pos).entry ≡ e)

-- The task is between its claim of this place and its hand-over.
unfoldable pub HoldsPlace : Writer → ℕ → Type 0
HoldsPlace (filling e pos) p = pos ≡ p
HoldsPlace (handing e pos) p = pos ≡ p
HoldsPlace _ p = ⊥

-- What the reader knows: how much was copied, and that the entry it is at is complete.
unfoldable pub ReaderOk : List Slot → ℕ → List HcpEventEntry → List HcpEventEntry → Reader → Type 0
ReaderOk slots read claims out waiting = out ≡ take read claims
ReaderOk slots read claims out copying =
    Handed (at_place slots read) read claims × (out ≡ take read claims)
ReaderOk slots read claims out releasing =
    Handed (at_place slots read) read claims × (out ≡ take (read + 1) claims)
ReaderOk slots read claims out advancing = out ≡ take (read + 1) claims

-- Advancing, the reader has handed back one entry more than it counts.
unfoldable pub ahead : Reader → ℕ
ahead advancing = 1
ahead _ = 0

pub record IsConsistent (s : System) : Type 0 where
  pub kept : IsKept s.ring.slots (s.ring.read + ahead s.reader) s.claims
  pub write : s.ring.write ≡ length s.claims
  pub writers : (i : ℕ) → WriterOk s.ring.slots (s.ring.read + ahead s.reader) s.claims (s.writer i)
  pub apart : (i j p : ℕ) → HoldsPlace (s.writer i) p → HoldsPlace (s.writer j) p → i ≡ j
  pub reader : ReaderOk s.ring.slots s.ring.read s.claims s.out s.reader

take-append_le :
    (n : ℕ) (xs ys : List HcpEventEntry) → n ≤ length xs → take n (xs ++ ys) ≡ take n xs
take-append_le zero xs ys h = refl
take-append_le (suc n) [] ys h = absurd (omega arith)
take-append_le (suc n) (x ∷ xs) ys h = ap (◌∷◌ x) (take-append_le n xs ys (omega arith))

pub claim-WriterOk :
    (slots : List Slot) (gone : ℕ) (claims : List HcpEventEntry) (e : HcpEventEntry) (w : Writer)
    → WriterOk slots gone claims w
    → WriterOk slots gone (claims ++ e ∷ []) w
unfolding WriterOk
claim-WriterOk slots gone claims e outside ok = tt
claim-WriterOk slots gone claims e (loading x) ok = tt
claim-WriterOk slots gone claims e (looking x pos) ok = omega (arith, length-append claims (e ∷ []))
claim-WriterOk slots gone claims e (trying x pos) ok =
    (omega (arith, ok.0, length-append claims (e ∷ [])), ok.1)
claim-WriterOk slots gone claims e dropping ok = tt
claim-WriterOk slots gone claims e (filling x pos) ok = claim-Held e ok
claim-WriterOk slots gone claims e (handing x pos) ok = (claim-Held e ok.0, ok.1)

pub claim-ReaderOk :
    (slots : List Slot) (read : ℕ) (claims out : List HcpEventEntry) (e : HcpEventEntry)
    (r : Reader)
    → read + ahead r ≤ length claims
    → ReaderOk slots read claims out r
    → ReaderOk slots read (claims ++ e ∷ []) out r
unfolding ReaderOk ahead
claim-ReaderOk slots read claims out e waiting h ok =
    ok ∙ sym (take-append_le read claims (e ∷ []) (omega arith))
claim-ReaderOk slots read claims out e copying h ok =
    (Handed-append e ok.0, ok.1 ∙ sym (take-append_le read claims (e ∷ []) (omega arith)))
claim-ReaderOk slots read claims out e releasing h ok = (
  Handed-append e ok.0,
  ok.1 ∙ sym (take-append_le (read + 1) claims (e ∷ []) (omega (arith, ok.0.below))),
)
claim-ReaderOk slots read claims out e advancing h ok =
    ok ∙ sym (take-append_le (read + 1) claims (e ∷ []) (omega arith))

module _ {slots : List Slot} {gone : ℕ} {claims : List HcpEventEntry} {e : HcpEventEntry} (p : ℕ)
    (s : Slot) (k : IsKept slots gone claims) (held : Held slots gone claims e p) where
  pub set-WriterOk :
      (w : Writer)
      → (HoldsPlace w p → ⊥)
      → WriterOk slots gone claims w
      → WriterOk (set slots (p % capacity) s) gone claims w
  unfolding WriterOk HoldsPlace
  set-WriterOk outside free ok = tt
  set-WriterOk (loading x) free ok = tt
  set-WriterOk (looking x pos) free ok = ok
  set-WriterOk (trying x pos) free ok = ok
  set-WriterOk dropping free ok = tt
  set-WriterOk (filling x pos) free ok =
      set-Held p s k held.after (omega (arith, held.below, k.room)) pos free ok
  set-WriterOk (handing x pos) free ok = (
    set-Held p s k held.after (omega (arith, held.below, k.room)) pos free ok.0,
    ap (λ (y : Slot). y.entry)
          (at_place-set_ne p s k held.after (omega (arith, held.below, k.room)) pos ok.0.after
            (omega (arith, ok.0.below, k.room)) free)
        ∙ ok.1,
  )

  set-Handed :
      (q : ℕ)
      → gone ≤ q
      → Handed (at_place slots q) q claims
      → Handed (at_place (set slots (p % capacity) s) q) q claims
  set-Handed q h done =
      let apart : q ≢ p =
        λ same. absurd (omega (arith, ap (λ i. (at_place slots i).seq) same, held.seq, done.seq)) in
      rw
        (at_place-set_ne p s k held.after (omega (arith, held.below, k.room)) q h
          (omega (arith, done.below, k.room)) apart)
        done

  pub set-ReaderOk :
      (read : ℕ) (out : List HcpEventEntry) (r : Reader)
      → gone ≡ read + ahead r
      → ReaderOk slots read claims out r
      → ReaderOk (set slots (p % capacity) s) read claims out r
  unfolding ReaderOk ahead
  set-ReaderOk read out waiting g ok = ok
  set-ReaderOk read out copying g ok = (set-Handed read (omega (arith, g)) ok.0, ok.1)
  set-ReaderOk read out releasing g ok = (set-Handed read (omega (arith, g)) ok.0, ok.1)
  set-ReaderOk read out advancing g ok = ok

-- What a step of task i leaves: its own knowledge, and that of everybody else.
pub record Moves (s : System) (i : ℕ) (x : Writer) (ring : HcpEventRing)
    (claims : List HcpEventEntry) : Type 0 where
  pub kept : IsKept ring.slots (s.ring.read + ahead s.reader) claims
  pub write : ring.write ≡ length claims
  pub read : ring.read ≡ s.ring.read
  pub mover : WriterOk ring.slots (s.ring.read + ahead s.reader) claims x
  pub others :
      (j : ℕ) → j ≢ i → WriterOk ring.slots (s.ring.read + ahead s.reader) claims (s.writer j)
  pub apart : (j p : ℕ) → j ≢ i → HoldsPlace x p → HoldsPlace (s.writer j) p → ⊥
  pub reader : ReaderOk ring.slots s.ring.read claims s.out s.reader

-- The system after that step.
abbrev pub after : System → ℕ → Writer → HcpEventRing → List HcpEventEntry → System
after s i x ring claims = record s { ring = ring; writer = moved s.writer i x; claims = claims }

moves-writers :
    (s : System) (i : ℕ) (x : Writer) (ring : HcpEventRing) (claims : List HcpEventEntry)
    → Moves s i x ring claims
    → (j : ℕ) → WriterOk ring.slots (s.ring.read + ahead s.reader) claims (moved s.writer i x j)
moves-writers s i x ring claims m j = elim (Bool-cases (j == i)) [
  | inl same ↦ rw same m.mover
  | inr other ↦ rw other (m.others j (ground (arith, other)))
]

moves-apart :
    (s : System) (i : ℕ) (x : Writer) (ring : HcpEventRing) (claims : List HcpEventEntry)
    → IsConsistent s
    → Moves s i x ring claims
    → (j k p : ℕ) → HoldsPlace (moved s.writer i x j) p
    → HoldsPlace (moved s.writer i x k) p
    → j ≡ k
moves-apart s i x ring claims c m j k p = elim (Bool-cases (j == i)) [
  | inl a ↦ elim (Bool-cases (k == i)) [
    | inl b ↦ λ h l. ==→eq j i a ∙ sym (==→eq k i b)
    | inr b ↦ rw (a, b) (λ h l. absurd (m.apart k p (ground (arith, b)) h l))
  ]
  | inr a ↦ elim (Bool-cases (k == i)) [
    | inl b ↦ rw (a, b) (λ h l. absurd (m.apart j p (ground (arith, a)) l h))
    | inr b ↦ rw (a, b) (λ h l. c.apart j k p h l)
  ]
]

pub moves-IsConsistent :
    (s : System) (i : ℕ) (x : Writer) (ring : HcpEventRing) (claims : List HcpEventEntry)
    → IsConsistent s
    → Moves s i x ring claims
    → IsConsistent (after s i x ring claims)
moves-IsConsistent s i x ring claims c m = record {
  kept = subst (λ (n : ℕ). IsKept ring.slots (n + ahead s.reader) claims) (sym m.read) m.kept;
  write = m.write;
  writers =
      subst
        (λ (n : ℕ).
          (j : ℕ) → WriterOk ring.slots (n + ahead s.reader) claims (moved s.writer i x j))
        (sym m.read) (moves-writers s i x ring claims m);
  apart = moves-apart s i x ring claims c m;
  reader = subst (λ (n : ℕ). ReaderOk ring.slots n claims s.out s.reader) (sym m.read) m.reader;
}

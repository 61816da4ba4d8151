-- ===== src/Ring/Tasks/Order.antt =====
-- What comes out of the ring is what was claimed, in that order, however the tasks are interleaved.
use esphome_hcpbridge.Base.{
  ℕ, ◌+◌, ◌%◌, ◌≤◌, ◌<◌, ◌^◌, ◌≡◌, refl, sym, ap, ◌∙◌, inl, arith, List, length, length-append,
  length-take, get_or, take, u32,
}
use esphome_hcpbridge.Events.{HcpEventEntry}
use esphome_hcpbridge.Ring.{no_slot, capacity, empty_ring}
use esphome_hcpbridge.Ring.Tasks.{
  loading, Reader, waiting, copying, releasing, advancing, start, System, write_step, after_call,
  Step, calls, writes, reads, Reach, begins, then_steps,
}
use esphome_hcpbridge.Ring.Queue.{empty_ring-Holds}
use esphome_hcpbridge.Ring.Tasks.Steps.{
  WriterOk, HoldsPlace, ReaderOk, ahead, IsConsistent, moves-IsConsistent,
}
use esphome_hcpbridge.Ring.Tasks.Writes.{after_write-IsConsistent}
use esphome_hcpbridge.Ring.Tasks.Reads.{Stands, stands, read-IsConsistent}

start-IsConsistent : IsConsistent start
unfolding WriterOk HoldsPlace ReaderOk ahead empty_ring
start-IsConsistent =
    let v = empty_ring-Holds in
    record {
      kept = record {
        size = v.slots;
        room = omega arith;
        behind = omega arith;
        each = λ p h l.
            let index : p % 32 ≡ (0 + p) % 32 = omega arith in
            let word : u32 (0 + p) ≡ p = omega (arith, l) in
            inl (
              ap (λ (n : ℕ). (get_or empty_ring.slots n no_slot).seq) index
              ∙ v.vacant p (omega arith) (omega (arith, l))
              ∙ word);
      };
      write = refl;
      writers = λ i. tt;
      apart = λ i j p h. absurd h;
      reader = refl;
    }

after_call-IsConsistent :
    (s : System) (i : ℕ) (e : HcpEventEntry) → IsConsistent s → IsConsistent (after_call s i e)
unfolding WriterOk HoldsPlace
after_call-IsConsistent s i e c = moves-IsConsistent s i (loading e) s.ring s.claims c (record {
  kept = c.kept;
  write = c.write;
  read = refl;
  mover = tt;
  others = λ j h. c.writers j;
  apart = λ j p h l m. l;
  reader = c.reader;
})

claims-Step : {s t : System} → Step s t → length s.claims ≤ length t.claims
claims-Step (calls s i e h) = omega arith
claims-Step (writes s fails i) =
    omega (arith, length-append s.claims (write_step fails s.ring (s.writer i)).2)
claims-Step (reads s) = omega arith

step-IsConsistent :
    {s t : System} → Step s t → length s.claims + 64 < 2 ^ 32 → IsConsistent s → IsConsistent t
step-IsConsistent (calls s i e h) small c = after_call-IsConsistent s i e c
step-IsConsistent (writes s fails i) small c = after_write-IsConsistent s fails i c small
step-IsConsistent (reads s) small c = read-IsConsistent s s.reader refl c (stands s c) small

Reach-IsConsistent : {s : System} → Reach s → length s.claims + 64 < 2 ^ 32 → IsConsistent s
Reach-IsConsistent begins small = start-IsConsistent
Reach-IsConsistent (then_steps reached step) small =
    step-IsConsistent step (omega (arith, claims-Step step))
      (Reach-IsConsistent reached (omega (arith, claims-Step step)))

-- A list that is taken from the front of another, as far as it goes.
taken_length :
    (n : ℕ) (out claims : List HcpEventEntry)
    → out ≡ take n claims
    → n ≤ length claims
    → length out ≡ n
taken_length n out claims h l = ap length h ∙ omega (arith, length-take n claims)

-- Copied in order, and not far behind.
pub record IsOrdered (claims out : List HcpEventEntry) : Type 0 where
  pub prefix : out ≡ take (length out) claims
  pub close : length claims ≤ length out + capacity

ordered :
    (n gone : ℕ) (claims out : List HcpEventEntry)
    → out ≡ take n claims
    → n ≤ length claims
    → gone ≤ n
    → length claims ≤ gone + capacity
    → IsOrdered claims out
ordered n gone claims out h l behind room =
    let same = taken_length n out claims h l in
    record {
      prefix = h ∙ ap (λ (k : ℕ). take k claims) (sym same);
      close = omega (arith, same, behind, room);
    }

Stands-IsOrdered : (s : System) (r : Reader) → Stands s r → IsOrdered s.claims s.out
unfolding ReaderOk ahead
Stands-IsOrdered s waiting k =
    ordered s.ring.read (s.ring.read + 0) s.claims s.out k.reader (omega (arith, k.kept.behind))
      (omega arith) k.kept.room
Stands-IsOrdered s copying k =
    ordered s.ring.read (s.ring.read + 0) s.claims s.out k.reader.1 (omega (arith, k.kept.behind))
      (omega arith) k.kept.room
Stands-IsOrdered s releasing k =
    ordered (s.ring.read + 1) (s.ring.read + 0) s.claims s.out k.reader.1
      (omega (arith, k.reader.0.below)) (omega arith) k.kept.room
Stands-IsOrdered s advancing k =
    ordered (s.ring.read + 1) (s.ring.read + 1) s.claims s.out k.reader k.kept.behind (omega arith)
      k.kept.room

-- Under every interleaving of the single accesses of any number of tasks in `push` and the one in
-- `drain`, from the constructor on and while fewer than 2 ^ 32 - 64 places have been claimed: the
-- entries that the reader has copied are the first ones of those whose places were claimed, whole
-- and in the order of the claims, and at most 32 claimed ones are still to be copied.
pub Reach-IsOrdered :
    {s : System} → Reach s → length s.claims + 64 < 2 ^ 32 → IsOrdered s.claims s.out
Reach-IsOrdered {s} reached small =
    Stands-IsOrdered s s.reader (stands s (Reach-IsConsistent reached small))

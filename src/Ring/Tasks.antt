-- ===== src/Ring/Tasks.antt =====
-- components/hcpbridge/hcp_events.h, `HcpEventRing<32>` under tasks that run at once: any number of
-- tasks in `push`, and the one in `drain`, each access to what they share a step of its own, in any
-- order.
pub mod Kept
pub mod Steps
pub mod Writes
pub mod Reads
pub mod Order
mod Tests
use esphome_hcpbridge.Base.{
  ℕ, ◌+◌, ◌%◌, Bool, true, false, not, ◌||◌, ◌≡◌, ◌==◌, if◌then◌else◌, List, [], ◌∷◌, ◌++◌, set,
  sub32, u32,
}
use esphome_hcpbridge.Events.{HcpEventEntry}
use esphome_hcpbridge.Ring.{Slot, HcpEventRing, capacity, slot_at, is_negative, empty_ring}

-- Where a task stands in `push`, with its locals.
pub data Writer : Type 0 where
  outside : Writer
  loading : HcpEventEntry → Writer  -- before `write_.load`
  looking : HcpEventEntry → ℕ → Writer  -- before `seq.load`
  trying : HcpEventEntry → ℕ → Writer  -- before the exchange
  dropping : Writer  -- before `dropped_.fetch_add`
  filling : HcpEventEntry → ℕ → Writer  -- before the entry is written
  handing : HcpEventEntry → ℕ → Writer  -- before `seq.store`

-- Where the reader stands in the loop of `drain`.
pub data Reader : Type 0 where
  waiting copying releasing advancing : Reader

-- The exchange may fail for no reason, and hands back what it found.
unfoldable pub write_step :
    Bool → HcpEventRing → Writer → HcpEventRing × Writer × List HcpEventEntry
write_step fails r outside = (r, outside, [])
write_step fails r (loading e) = (r, looking e r.write, [])
write_step fails r (looking e pos) =
    let free = sub32 (slot_at r pos).seq pos in
    (
      r,
      (if free == 0 then trying e pos else (if is_negative free then dropping else loading e)),
      [],
    )
write_step fails r (trying e pos) =
    if fails || not (r.write == pos)
    then (r, looking e r.write, [])
    else (record r { write = u32 (pos + 1) }, filling e pos, e ∷ [])
write_step fails r dropping = (record r { dropped = u32 (r.dropped + 1) }, outside, [])
write_step fails r (filling e pos) = (
  record r {
    slots = set r.slots (pos % capacity) (record { seq = (slot_at r pos).seq; entry = e });
  },
  handing e pos,
  [],
)
write_step fails r (handing e pos) = (
  record r {
    slots =
        set r.slots (pos % capacity)
          (record { seq = u32 (pos + 1); entry = (slot_at r pos).entry });
  },
  outside,
  [],
)

unfoldable pub read_step : HcpEventRing → Reader → HcpEventRing × Reader × List HcpEventEntry
read_step r waiting =
    (r, (if sub32 (slot_at r r.read).seq (u32 (r.read + 1)) == 0 then copying else waiting), [])
read_step r copying = (r, releasing, (slot_at r r.read).entry ∷ [])
read_step r releasing = (
  record r {
    slots =
        set r.slots (r.read % capacity)
          (record { seq = u32 (r.read + capacity); entry = (slot_at r r.read).entry });
  },
  advancing,
  [],
)
read_step r advancing = (record r { read = u32 (r.read + 1) }, waiting, [])

-- The tasks by number; the entries in the order in which their places were claimed, and those that
-- were copied out.
pub record System : Type 0 where
  pub ring : HcpEventRing
  pub writer : ℕ → Writer
  pub reader : Reader
  pub claims : List HcpEventEntry
  pub out : List HcpEventEntry

abbrev pub moved : (ℕ → Writer) → ℕ → Writer → ℕ → Writer
moved w i x j = if j == i then x else w j

abbrev pub start : System
start = record { ring = empty_ring; writer = λ i. outside; reader = waiting; claims = []; out = [] }

abbrev pub after_call : System → ℕ → HcpEventEntry → System
after_call s i e = record s { writer = moved s.writer i (loading e) }

abbrev pub after_write : System → Bool → ℕ → System
after_write s fails i =
    let r = write_step fails s.ring (s.writer i) in
    record s { ring = r.0; writer = moved s.writer i r.1; claims = s.claims ++ r.2 }

abbrev pub after_read : System → System
after_read s =
    let r = read_step s.ring s.reader in record s { ring = r.0; reader = r.1; out = s.out ++ r.2 }

-- What the tasks can do: one outside of `push` calls it, or one of them goes a step further.
pub data Step : System → System → Type 0 where
  calls :
      (s : System) (i : ℕ) (e : HcpEventEntry) → s.writer i ≡ outside → Step s (after_call s i e)
  writes : (s : System) (fails : Bool) (i : ℕ) → Step s (after_write s fails i)
  reads : (s : System) → Step s (after_read s)

pub data Reach : System → Type 0 where
  begins : Reach start
  then_steps : {s t : System} → Reach s → Step s t → Reach t

-- ===== src/Ring.antt =====
-- components/hcpbridge/hcp_events.h, `HcpEventRing<32>`: the ring of recorded events, here with its
-- calls made one at a time. Sequence numbers and both positions are uint32_t and wrap. The retry
-- loop of `push` takes fuel; `none` is a loop that is still turning.
pub mod Holds
pub mod Drain
pub mod Queue
pub mod Tasks
mod Tests
use esphome_hcpbridge.Base.{
  ℕ, zero, suc, ◌+◌, ◌%◌, ◌^◌, Bool, Option, none, some, List, [], ◌∷◌, leb, ◌==◌, if◌then◌else◌,
  sub32, u32, get_or, set,
}
use esphome_hcpbridge.Events.{HcpEventEntry, no_entry}

pub record Slot : Type 0 where
  pub seq : ℕ
  pub entry : HcpEventEntry

-- The template's N in both codecs.
abbrev pub capacity : ℕ
capacity = 32

pub record HcpEventRing : Type 0 where
  pub slots : List Slot
  pub write : ℕ
  pub read : ℕ
  pub dropped : ℕ

abbrev pub no_slot : Slot
no_slot = record { seq = 0; entry = no_entry }

-- The constructor's loop: slot i starts with sequence number i.
unfoldable pub fresh_slots : ℕ → ℕ → List Slot
fresh_slots zero i = []
fresh_slots (suc n) i = record { seq = i; entry = no_entry } ∷ fresh_slots n (i + 1)

unfoldable pub empty_ring : HcpEventRing
empty_ring = record { slots = fresh_slots capacity 0; write = 0; read = 0; dropped = 0 }

-- `slots_[pos & (N - 1)]`.
abbrev pub slot_at : HcpEventRing → ℕ → Slot
slot_at r pos = get_or r.slots (pos % capacity) no_slot

-- The claim, the entry and the hand-over of one push.
pub fill : HcpEventRing → ℕ → HcpEventEntry → HcpEventRing
fill r pos e = record r {
  write = u32 (pos + 1);
  slots = set r.slots (pos % capacity) (record { seq = u32 (pos + 1); entry = e });
}

-- `(int32_t) (seq - pos)` is negative.
abbrev pub is_negative : ℕ → Bool
is_negative word = leb (2 ^ 31) word

pub push_loop : ℕ → HcpEventRing → ℕ → HcpEventEntry → Option HcpEventRing
push_loop zero r pos e = none
push_loop (suc fuel) r pos e =
    let free = sub32 (slot_at r pos).seq pos in
    let again = push_loop fuel r r.write e in
    if free == 0
    then some (fill r pos e)
    else (if is_negative free then some (record r { dropped = u32 (r.dropped + 1) }) else again)

-- One turn of the loop is enough for a call that nobody interrupts (`Ring.Holds.push_loop_returns`).
pub push : HcpEventRing → HcpEventEntry → HcpEventRing
push r e = elim (push_loop 1 r r.write e) [ none ↦ r | some r' ↦ r' ]

-- The slot at the read position goes back to the writers, for their next round.
pub hand_back : HcpEventRing → HcpEventRing
hand_back r = record r {
  slots =
      set r.slots (r.read % capacity) (record (slot_at r r.read) { seq = u32 (r.read + capacity) });
  read = u32 (r.read + 1);
}

-- `drain`: the entries taken, oldest first, and the ring after.
pub drain : HcpEventRing → ℕ → List HcpEventEntry × HcpEventRing
unfolding hand_back
drain r zero = ([], r)
drain r (suc max) =
    let slot = slot_at r r.read in
    let taken : List HcpEventEntry × HcpEventRing = drain (hand_back r) max in
    if sub32 slot.seq (u32 (r.read + 1)) == 0 then (slot.entry ∷ taken.0, taken.1) else ([], r)

unfoldable pub take_dropped : HcpEventRing → ℕ × HcpEventRing
take_dropped r = (r.dropped, record r { dropped = 0 })

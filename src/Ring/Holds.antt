-- ===== src/Ring/Holds.antt =====
-- What a ring of `HcpEventRing<32>` holds. `Holds` relates it to the list of its entries through the
-- number of entries ever read, which does not wrap while the sequence numbers of the ring do.
use esphome_hcpbridge.Base.{
  ℕ, suc, ◌+◌, ◌%◌, ◌≤◌, ◌<◌, ◌≡◌, refl, sym, ap, ◌∙◌, ◌≢◌, List, [], ◌∷◌, ◌++◌, some, arith, ltb,
  ◌==◌, u32, length, get_or, length-append, length-set, get_or-set_self, get_or-set_ne,
  get_or-append_left, get_or-append_right, ==→eq, Bool-cases, inl, inr, ◌⊎◌,
}
use esphome_hcpbridge.Events.{HcpEventEntry, no_entry}
use esphome_hcpbridge.Ring.{Slot, HcpEventRing, capacity, no_slot, fill, push_loop, push}

-- The slot of the entry that is k places behind the next one to read.
abbrev pub place : HcpEventRing → ℕ → ℕ → Slot
place r base k = get_or r.slots ((base + k) % capacity) no_slot

-- Ring `r`, from which `base` entries have been read, holds the entries `q`, oldest first.
pub record Holds (r : HcpEventRing) (base : ℕ) (q : List HcpEventEntry) : Type 0 where
  pub room : length q ≤ capacity
  pub slots : length r.slots ≡ capacity
  pub write : r.write ≡ u32 (base + length q)
  pub read : r.read ≡ u32 base
  pub held :
      (k : ℕ)
      → k < length q
      → place r base k ≡ record { seq = u32 (base + k + 1); entry = get_or q k no_entry }
  pub vacant : (k : ℕ) → length q ≤ k → k < capacity → (place r base k).seq ≡ u32 (base + k)

abbrev pub refused : HcpEventRing → HcpEventRing
refused r = record r { dropped = u32 (r.dropped + 1) }

push_loop_room :
    {r : HcpEventRing} {base : ℕ} {q : List HcpEventEntry} (fuel : ℕ) (e : HcpEventEntry)
    → Holds r base q
    → length q < capacity
    → push_loop (suc fuel) r r.write e ≡ some (fill r r.write e)
unfolding push_loop
push_loop_room {r} {base} {q} fuel e v room =
    let index : r.write % capacity ≡ (base + length q) % capacity = omega (arith, v.write) in
    ground (
      arith,
      ap (λ (i : ℕ). (get_or r.slots i no_slot).seq) index,
      v.vacant (length q) (omega arith) room,
      v.write,
    )

push_loop_full :
    {r : HcpEventRing} {base : ℕ} {q : List HcpEventEntry} (fuel : ℕ) (e : HcpEventEntry)
    → Holds r base q
    → length q ≡ capacity
    → push_loop (suc fuel) r r.write e ≡ some (refused r)
unfolding push_loop
push_loop_full {r} {base} {q} fuel e v full =
    let index : r.write % capacity ≡ (base + 0) % capacity = omega (arith, v.write, full) in
    ground (
      arith,
      ap (λ (i : ℕ). (get_or r.slots i no_slot).seq) index,
      ap (λ (s : Slot). s.seq) (v.held 0 (omega arith)),
      v.write,
    )

module _ {r : HcpEventRing} {base : ℕ} {q : List HcpEventEntry} (v : Holds r base q) where
  fill-place_new :
      (e : HcpEventEntry)
      → place (fill r r.write e) base (length q)
        ≡ record { seq = u32 (base + length q + 1); entry = e }
  unfolding fill
  fill-place_new e =
      let index : (base + length q) % capacity ≡ r.write % capacity = omega (arith, v.write) in
      rw index (
        get_or-set_self r.slots (r.write % capacity) _ no_slot (omega (arith, v.slots))
        ∙ ap (λ (s : ℕ). record { seq = s; entry = e }) (omega (arith, v.write)))

  fill-place_old :
      (e : HcpEventEntry) (k : ℕ)
      → k < capacity
      → k ≢ length q
      → length q < capacity
      → place (fill r r.write e) base k ≡ place r base k
  unfolding fill
  fill-place_old e k below ne room =
      get_or-set_ne r.slots (r.write % capacity) ((base + k) % capacity) _ no_slot
        (omega (arith, v.write))

  fill_held :
      (e : HcpEventEntry) (k : ℕ)
      → k < length q + 1
      → length q < capacity
      → place (fill r r.write e) base k
        ≡ record { seq = u32 (base + k + 1); entry = get_or (q ++ e ∷ []) k no_entry }
  fill_held e k h room = elim (Bool-cases (k == length q)) [
    | inl last ↦
        let here : k ≡ length q = ==→eq k (length q) last in
        rw (here, get_or-append_right q (e ∷ []) (length q) 0 no_entry (omega arith))
          (fill-place_new e)
    | inr before ↦
        let older : k < length q = ground arith in
        fill-place_old e k (omega arith) (omega arith) room
        ∙ v.held k older
        ∙ ap (λ (x : HcpEventEntry). record { seq = u32 (base + k + 1); entry = x })
            (sym (get_or-append_left q (e ∷ []) k no_entry older))
  ]

  fill-Holds :
      (e : HcpEventEntry) → length q < capacity → Holds (fill r r.write e) base (q ++ e ∷ [])
  unfolding fill
  fill-Holds e room = record {
    room = omega (arith, length-append q (e ∷ []));
    slots = length-set r.slots (r.write % capacity) _ ∙ v.slots;
    write = omega (arith, v.write, length-append q (e ∷ []));
    read = v.read;
    held = λ k h. fill_held e k (omega (arith, length-append q (e ∷ []))) room;
    vacant = λ k h below.
        ap (λ (s : Slot). s.seq)
          (fill-place_old e k below (omega (arith, length-append q (e ∷ []))) room)
        ∙ v.vacant k (omega (arith, length-append q (e ∷ []))) below;
  }

  refused-Holds : Holds (refused r) base q
  refused-Holds = record {
    room = v.room;
    slots = v.slots;
    write = v.write;
    read = v.read;
    held = v.held;
    vacant = v.vacant;
  }

  push-room : (e : HcpEventEntry) → length q < capacity → push r e ≡ fill r r.write e
  unfolding push
  push-room e room = rw (push_loop_room 0 e v room, push)

  push-full : (e : HcpEventEntry) → length q ≡ capacity → push r e ≡ refused r
  unfolding push
  push-full e full = rw (push_loop_full 0 e v full, push)

  -- The test of `push`'s caller: is there a free slot?
  pub room_cases : (length q < capacity) ⊎ (length q ≡ capacity)
  room_cases = elim (Bool-cases (ltb (length q) capacity)) [
    | inl room ↦ inl (ground arith)
    | inr full ↦ inr (ground (arith, v.room))
  ]

  -- A push that nobody interrupts returns after one turn of its loop, whatever the ring holds,
  -- and gives what `push` gives.
  pub push_loop_returns :
      (fuel : ℕ) (e : HcpEventEntry) → push_loop (suc fuel) r r.write e ≡ some (push r e)
  push_loop_returns fuel e = elim room_cases [
    | inl room ↦ push_loop_room fuel e v room ∙ ap some (sym (push-room e room))
    | inr full ↦ push_loop_full fuel e v full ∙ ap some (sym (push-full e full))
  ]

  -- With a free slot the entry goes to the end.
  pub push-Holds : (e : HcpEventEntry) → length q < capacity → Holds (push r e) base (q ++ e ∷ [])
  push-Holds e room = rw (push-room e room) (fill-Holds e room)

  -- Without one it is dropped and counted.
  pub push_full-Holds :
      (e : HcpEventEntry)
      → length q ≡ capacity
      → Holds (push r e) base q × ((push r e).dropped ≡ u32 (r.dropped + 1))
  push_full-Holds e full = rw (push-full e full) (refused-Holds, refl)

  -- A push into a ring with a free slot loses nothing.
  pub dropped-push : (e : HcpEventEntry) → length q < capacity → (push r e).dropped ≡ r.dropped
  unfolding fill
  dropped-push e room = rw (push-room e room)

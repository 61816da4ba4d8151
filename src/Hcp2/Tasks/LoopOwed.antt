-- ===== src/Hcp2/Tasks/LoopOwed.antt =====
-- A step of the loop task of hcp2_codec.cpp against the count.
use esphome_hcpbridge.Base.{
  ℕ, ◌+◌, ◌≡◌, inl, inr, arith, Bool, Bool-cases, true, false, not, ◌&&◌, ◌||◌, if◌then◌else◌, ltb,
  ◌==◌, sub32,
}
use esphome_hcpbridge.State.{HoermannCommand, nothing, stop, is_nothing, bus_silence_ms}
use esphome_hcpbridge.State.Laws.{is_nothing-nothing}
use esphome_hcpbridge.Hcp2.Codec.{Hcp2Codec}
use esphome_hcpbridge.Hcp2.Tasks.{
  Loop, resting, checking, stamping, exchanging, restoring, asking, stop_checking, stop_stamping,
  stop_storing, stop_cancelling, silencing, emptying, loop_step, Bus, loop_fills,
}
use esphome_hcpbridge.Hcp2.Tasks.Count.{IsOwed}

module _ {slot : HoermannCommand} {b : Bus} {filled : Bool} {sent accepted : ℕ}
    (h : IsOwed slot b filled sent accepted) where
  or_false : filled || false ≡ filled
  or_false = ground arith

  or_true : filled || true ≡ true
  or_true = ground arith

  -- The slot is left alone.
  keeps : IsOwed slot b (filled || false) sent (accepted + 0)
  keeps = rw or_false (record { paid = omega (arith, h.paid); copy = h.copy })

  -- It is emptied.
  empties : IsOwed nothing b (filled || false) sent (accepted + 0)
  empties = record {
    paid = ground (arith, h.paid, is_nothing-nothing);
    copy = λ _ _. inl is_nothing-nothing;
  }

  -- An accepted press fills it.
  fills : (new : HoermannCommand) → IsOwed new b (filled || true) sent (accepted + 1)
  fills new = record { paid = ground (arith, h.paid); copy = λ _ e. absurd (ground (arith, e)) }

-- A step of the loop task.
pub loop_step-IsOwed :
    (c : Hcp2Codec) (l : Loop) (b : Bus) (filled : Bool) (sent accepted : ℕ)
    → IsOwed c.next_command b filled sent accepted
    → let due = loop_fills c l in
      IsOwed
        (loop_step c l).0.next_command
        b
        (filled || due)
        sent
        (accepted + (if due then 1 else 0))
unfolding loop_step loop_fills
loop_step-IsOwed c resting b filled sent accepted h = keeps h
loop_step-IsOwed c (checking now cmd goal) b filled sent accepted h =
    elim (Bool-cases (not c.state.valid || c.pause_requested)) [
      | inl dead ↦ rw dead (keeps h)
      | inr alive ↦ rw alive (keeps h)
    ]
loop_step-IsOwed c (stamping now cmd goal) b filled sent accepted h = keeps h
loop_step-IsOwed c (exchanging now cmd goal old) b filled sent accepted h =
    elim (Bool-cases (is_nothing c.next_command)) [
      | inl free ↦ rw free (fills h cmd)
      | inr taken ↦ rw taken (keeps h)
    ]
loop_step-IsOwed c (restoring now cmd old) b filled sent accepted h = keeps h
loop_step-IsOwed c (asking percent) b filled sent accepted h = keeps h
loop_step-IsOwed c (stop_checking now) b filled sent accepted h =
    elim (Bool-cases (not c.state.valid || c.pause_requested)) [
      | inl dead ↦ rw dead (keeps h)
      | inr alive ↦ rw alive (keeps h)
    ]
loop_step-IsOwed c (stop_stamping now) b filled sent accepted h = keeps h
loop_step-IsOwed c stop_storing b filled sent accepted h = fills h stop
loop_step-IsOwed c stop_cancelling b filled sent accepted h = keeps h
loop_step-IsOwed c (silencing now) b filled sent accepted h =
    elim (Bool-cases
      (not (c.last_frame_on == 0) && ltb bus_silence_ms (sub32 now c.last_frame_on))) [
        | inl quiet ↦ rw quiet (keeps h)
        | inr heard ↦ rw heard (keeps h)
      ]
loop_step-IsOwed c (emptying now) b filled sent accepted h =
    elim (Bool-cases (is_nothing c.next_command)) [
      | inl bare ↦ rw bare (empties h)
      | inr held ↦ rw held (empties h)
    ]

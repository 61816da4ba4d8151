-- ===== src/Hcp2/Tasks/BusOwed.antt =====
-- A step of the bus task of hcp2_codec.cpp against the count.
use esphome_hcpbridge.Base.{
  ℕ, ◌+◌, ◌≤◌, ◌≡◌, refl, ◌⊎◌, inl, inr, arith, Bool, Bool-cases, true, false, not, ◌&&◌, ◌||◌,
  if◌then◌else◌, ltb, sub32,
}
use esphome_hcpbridge.State.{
  HoermannCommand, nothing, stop, is_nothing, is_stop, same_command, cmd_stale_ms,
}
use esphome_hcpbridge.State.Laws.{
  is_nothing-nothing, is_stop→eq, same_command_self, is_nothing-stop,
}
use esphome_hcpbridge.Events.{HcpEvent, command_sent}
use esphome_hcpbridge.Hcp2.Codec.{Hcp2Codec, clear_if_still}
use esphome_hcpbridge.Hcp2.Watch.{check_command_effect}
use esphome_hcpbridge.Hcp2.Poll.{honour_cancel, choose_command, write_command}
use esphome_hcpbridge.Hcp2.Tasks.{
  Bus, away, cancelling, loading, aging, dropping, halting, clearing, targeting, own_checking,
  own_stamping, own_storing, own_cancelling, bus_step, bus_age, bus_choose, bus_fills, sends, loads,
}
use esphome_hcpbridge.Hcp2.Tasks.Count.{in_hand, copy_of, has_copy, in_slot, IsOwed}

slot-check_command_effect :
    (c : Hcp2Codec) (now : ℕ) → (check_command_effect c now).next_command ≡ c.next_command
unfolding check_command_effect
slot-check_command_effect c now = ground arith

slot-honour_cancel : (c : Hcp2Codec) → (honour_cancel c).next_command ≡ c.next_command
unfolding honour_cancel
slot-honour_cancel c = ground arith

slot-choose_nothing :
    (c : Hcp2Codec) (now : ℕ) → (choose_command c now nothing).0.next_command ≡ c.next_command
unfolding choose_command is_nothing
slot-choose_nothing c now = ground arith

slot-write_command :
    (c : Hcp2Codec) (now : ℕ) (cmd : HoermannCommand) (why : HcpEvent)
    → (write_command c now cmd why).next_command ≡ c.next_command
unfolding write_command
slot-write_command c now cmd why = ground arith

-- The choice leaves the slot alone, and takes nothing or the press in hand.
slot-bus_choose :
    (c : Hcp2Codec) (now : ℕ) (cmd : HoermannCommand)
    → ((bus_choose c now cmd).0.next_command ≡ c.next_command)
      × ((bus_choose c now cmd).1 ≡ (if is_nothing cmd then away else clearing cmd))
unfolding bus_choose
slot-bus_choose c now cmd = (
  ground (
    arith,
    slot-choose_nothing c now,
    slot-write_command (choose_command c now nothing).0 now (choose_command c now nothing).1
        (choose_command c now nothing).2,
  ),
  ground arith,
)

-- What the bus task leaves of the slot.
slot-clear :
    (c : Hcp2Codec) (cmd : HoermannCommand)
    → (clear_if_still c cmd).next_command
      ≡ (if same_command c.next_command cmd then nothing else c.next_command)
unfolding clear_if_still
slot-clear c cmd = ground arith

-- The slot after the clearing of the copy in hand.
cleared :
    (slot : HoermannCommand) (b : Bus) (filled : Bool) (sent accepted : ℕ)
    → has_copy b ≡ true
    → IsOwed slot b filled sent accepted
    → let left = if same_command slot (copy_of b) then nothing else slot in
      (sent + in_hand b + (if is_nothing left then 0 else 1) ≤ accepted)
      × (filled ≡ false → is_nothing left ≡ true)
cleared slot b filled sent accepted copies h = (
  ground (arith, h.paid, h.copy copies, is_nothing-nothing, same_command_self slot, copies),
  ground (arith, h.copy copies, is_nothing-nothing, same_command_self slot, copies),
)

-- The choice.
bus_choose-IsOwed :
    (c : Hcp2Codec) (now : ℕ) (cmd : HoermannCommand) (filled : Bool) (sent accepted : ℕ)
    → sent + (if is_nothing cmd then 0 else 1) + in_slot c.next_command (clearing cmd) filled
      ≤ accepted
    → (filled ≡ false → (is_nothing c.next_command ≡ true) ⊎ (c.next_command ≡ cmd))
    → let r = bus_choose c now cmd in
      IsOwed r.0.next_command r.1 (filled || false) (sent + 0) (accepted + 0)
unfolding in_hand has_copy copy_of
bus_choose-IsOwed c now cmd filled sent accepted paid copy =
    let e = slot-bus_choose c now cmd in
    elim (Bool-cases (is_nothing cmd)) [
      | inl bare ↦
          rw (e.0, e.1, bare)
            (record {
              paid = ground (arith, paid, bare, copy);
              copy = λ k _. absurd (ground (arith, k));
            })
      | inr press ↦
          rw (e.0, e.1, press)
            (record { paid = ground (arith, paid, press); copy = λ _ f. copy (ground (arith, f)) })
    ]

bus_age-IsOwed :
    (c : Hcp2Codec) (now : ℕ) (cmd : HoermannCommand) (filled : Bool) (sent accepted : ℕ)
    → IsOwed c.next_command (aging cmd) filled sent accepted
    → let r = bus_age c now cmd in
      IsOwed r.0.next_command r.1 (filled || false) (sent + 0) (accepted + 0)
unfolding bus_age in_hand has_copy copy_of
bus_age-IsOwed c now cmd filled sent accepted h =
    elim (Bool-cases (not (is_nothing cmd) && ltb cmd_stale_ms (sub32 now c.next_command_on))) [
      | inl old ↦
          rw old (record {
            paid = ground (arith, h.paid);
            copy = λ _ f. h.copy refl (ground (arith, f));
          })
      | inr fresh ↦ elim (Bool-cases (is_stop cmd)) [
        | inl halting_now ↦
            rw (fresh, halting_now)
              (record {
                paid = ground (
                  arith,
                  h.paid,
                  is_stop→eq cmd halting_now,
                  is_nothing-nothing,
                  is_nothing-stop,
                );
                copy = λ _ f. ground (arith, f, h.copy refl, is_stop→eq cmd halting_now);
              })
        | inr other_press ↦
            rw (fresh, other_press)
              (bus_choose-IsOwed c now cmd filled sent accepted (ground (arith, h.paid))
                (λ f. h.copy refl f))
      ]
    ]

pub bus_step-IsOwed :
    (c : Hcp2Codec) (now : ℕ) (b : Bus) (filled : Bool) (sent accepted : ℕ)
    → IsOwed c.next_command b filled sent accepted
    → let r = bus_step c now b in
      IsOwed r.0.next_command r.1
        (not (loads b) && (filled || bus_fills b))
        (sent + (if sends b then 1 else 0))
        (accepted + (if bus_fills b then 1 else 0))
unfolding bus_step loads bus_fills sends in_hand has_copy copy_of
bus_step-IsOwed c now away filled sent accepted h =
    rw (slot-check_command_effect c now)
      (record { paid = ground (arith, h.paid); copy = λ k _. absurd (ground (arith, k)) })
bus_step-IsOwed c now cancelling filled sent accepted h =
    rw (slot-honour_cancel c)
      (record { paid = ground (arith, h.paid); copy = λ k _. absurd (ground (arith, k)) })
bus_step-IsOwed c now loading filled sent accepted h = record {
  paid = ground (arith, h.paid);
  copy = λ _ _. inr refl;
}
bus_step-IsOwed c now (aging cmd) filled sent accepted h =
    bus_age-IsOwed c now cmd filled sent accepted h
bus_step-IsOwed c now (dropping cmd) filled sent accepted h =
    let left = cleared c.next_command (dropping cmd) filled sent accepted refl h in
    bus_choose-IsOwed (clear_if_still c cmd) now nothing filled sent accepted
      (ground (arith, left.0, left.1, slot-clear c cmd, is_nothing-nothing))
      (λ f. inl (ground (arith, left.1 f, slot-clear c cmd)))
bus_step-IsOwed c now (halting cmd) filled sent accepted h =
    let left = cleared c.next_command (halting cmd) filled sent accepted refl h in
    bus_choose-IsOwed (clear_if_still c stop) now cmd filled sent accepted
      (ground (arith, left.0, left.1, slot-clear c stop, is_nothing-nothing))
      (λ f. inl (ground (arith, left.1 f, slot-clear c stop)))
bus_step-IsOwed c now (clearing cmd) filled sent accepted h =
    let left = cleared c.next_command (clearing cmd) filled sent accepted refl h in
    record {
      paid = ground (arith, left.0, slot-clear c cmd);
      copy = λ k _. absurd (ground (arith, k));
    }
bus_step-IsOwed c now (targeting cmd) filled sent accepted h =
    rw (slot-write_command _ now cmd command_sent)
      (record { paid = ground (arith, h.paid); copy = λ k _. absurd (ground (arith, k)) })
bus_step-IsOwed c now own_checking filled sent accepted h =
    elim (Bool-cases (not c.state.valid || c.pause_requested)) [
      | inl dead ↦
          rw dead
            (record { paid = ground (arith, h.paid); copy = λ k _. absurd (ground (arith, k)) })
      | inr alive ↦
          rw alive
            (record { paid = ground (arith, h.paid); copy = λ k _. absurd (ground (arith, k)) })
    ]
bus_step-IsOwed c now own_stamping filled sent accepted h = record {
  paid = ground (arith, h.paid);
  copy = λ k _. absurd (ground (arith, k));
}
bus_step-IsOwed c now own_storing filled sent accepted h = record {
  paid = ground (arith, h.paid);
  copy = λ k _. absurd (ground (arith, k));
}
bus_step-IsOwed c now own_cancelling filled sent accepted h = record {
  paid = ground (arith, h.paid);
  copy = λ k _. absurd (ground (arith, k));
}

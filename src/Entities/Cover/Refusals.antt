-- ===== src/Entities/Cover/Refusals.antt =====
-- What a call of the cover shows and leaves in the slot of the newer bus.
use esphome_hcpbridge.Base.{
  ℕ, ◌+◌, ◌≡◌, inl, inr, refl, arith, Bool, true, false, ◌||◌, if◌then◌else◌, Option, some, none,
  [], ◌∷◌, Bool-cases,
}
use esphome_hcpbridge.State.{HoermannCommand, nothing, stop, impulse, go_open, go_close}
use esphome_hcpbridge.Hcp2.Codec.{Hcp2Codec}
use esphome_hcpbridge.HcpBus.{hcp2_bus}
use esphome_hcpbridge.HcpBus.Taken.{
  alive, free, Took, open_door-Took, close_door-Took, impulse_door-Took, stop_door-Took,
}
use esphome_hcpbridge.Entities.Cover.{
  HcpBridgeCover, publication, Floats, CoverCall, CallClock, go_to, command_all, control,
}

-- How many commands a call gives.
abbrev pub commands {ℓ} : {F : Type ℓ} → CoverCall F → ℕ
commands call =
    (if call.stop then 1 else 0)
    + (elim call.position [ none ↦ 0 | some p ↦ 1 ])
    + (if call.toggle then 1 else 0)

module _ {ℓ} {F : Type ℓ} (floats : Floats F) where
  -- No run to a position partway.
  abbrev pub is_whole : CoverCall F → Bool
  is_whole call = elim call.position [ none ↦ true | some p ↦ floats.is_one p || floats.is_zero p ]

  -- The command that a call gives.
  abbrev pub wanted : CoverCall F → HoermannCommand
  wanted call =
      if call.stop
      then stop
      else (if call.toggle then impulse else elim call.position [
        | none ↦ nothing
        | some p ↦ if floats.is_one p then go_open else go_close
      ])

  -- Whether the codec takes the command of a call.
  abbrev pub is_taken : CoverCall F → Hcp2Codec → Bool
  is_taken call c = if call.stop then alive c else free c

  go_to-Took :
      (c : Hcp2Codec) (now : ℕ) (p : F)
      → (floats.is_one p || floats.is_zero p) ≡ true
      → Took
          (free c)
          (if floats.is_one p then go_open else go_close)
          c
          (go_to hcp2_bus floats c now p)
  unfolding go_to
  go_to-Took c now p whole = elim (Bool-cases (floats.is_one p)) [
    | inl one ↦ rw one (open_door-Took c now)
    | inr other ↦
        let zero : floats.is_zero p ≡ true = ground (arith, other, whole) in
        rw (other, zero) (close_door-Took c now)
  ]

  -- The parts of a call taken apart.
  command_all-Took :
      (c : Hcp2Codec) (clock : CallClock) (stop : Bool) (position : Option F) (toggle : Bool)
      → let call : CoverCall F = record { stop = stop; position = position; toggle = toggle } in
        commands call ≡ 1
        → is_whole call ≡ true
        → Took (is_taken call c) (wanted call) c (command_all hcp2_bus floats c call clock)
  unfolding command_all
  command_all-Took c clock true none false one whole = stop_door-Took c clock.stop
  command_all-Took c clock false (some p) false one whole =
      let k = go_to-Took c clock.position p whole in
      record { answer = ground (arith, k.answer); slot = k.slot; state = k.state }
  command_all-Took c clock false none true one whole =
      let k = impulse_door-Took c clock.toggle in
      record { answer = ground (arith, k.answer); slot = k.slot; state = k.state }
  command_all-Took c clock true (some p) toggle one whole = absurd (omega arith)
  command_all-Took c clock true none true one whole = absurd (omega arith)
  command_all-Took c clock false (some p) true one whole = absurd (omega arith)
  command_all-Took c clock false none false one whole = absurd (omega arith)

  -- Over the newer bus, a call of the cover that gives one command, and none to a position
  -- partway: if the codec takes it (a stop on a registered codec that is not paused, anything
  -- else only with an empty slot), the command is in the slot and nothing is published; if not,
  -- the slot is as it was and the cover publishes what it shows. The door's state is as it was.
  pub control_one :
      (e : HcpBridgeCover) (c : Hcp2Codec) (call : CoverCall F) (clock : CallClock)
      → commands call ≡ 1
      → is_whole call ≡ true
      → let r = control hcp2_bus floats e c call clock in
        (r.1 ≡ (if is_taken call c then [] else publication e true ∷ []))
        × (r.0.next_command ≡ (if is_taken call c then wanted call else c.next_command))
        × (r.0.state ≡ c.state)
  unfolding control
  control_one e c call clock one whole =
      let k = command_all-Took c clock call.stop call.position call.toggle one whole in
      (
        rw k.answer (elim (Bool-cases (is_taken call c)) [
          | inl taken ↦ rw taken refl
          | inr refused ↦ rw refused refl
        ]),
        k.slot,
        k.state,
      )

-- ===== src/BusTask/Settle.antt =====
-- The wait for a gap on the wire ends, and what its end says of the wire.
use esphome_hcpbridge.Base.{
  ℕ, zero, suc, ◌+◌, ◌*◌, ◌^◌, ◌≤◌, ◌<◌, ◌≡◌, ◌≢◌, ◌⊎◌, inl, inr, not, ◌&&◌, ltb, ◌==◌, arith,
  Option, some, u32, sub32, Bool-cases, subst, sym,
}
use esphome_hcpbridge.BusTask.{
  SettleClock, SettleEnd, fell_quiet, gave_up, settle_loop, settle_until_quiet,
}

-- The clock is a uint32_t of milliseconds that started `t i` milliseconds before the i-th test; a
-- round waits for at least `step` of them, and is over within 2 ^ 31.
pub record Ticks (step started : ℕ) (test t : ℕ → ℕ) : Type 0 where
  pub first : t 0 < 2 ^ 31
  pub begun : started < 2 ^ 32
  pub reads : (i : ℕ) → test i ≡ u32 (started + t i)
  pub waits : (i : ℕ) → t i + step ≤ t (i + 1)
  pub over : (i : ℕ) → t (i + 1) < t i + 2 ^ 31

-- What an end of the wait says.
abbrev IsEnd : SettleClock → (ℕ → ℕ) → SettleEnd → Type 0
IsEnd w t (fell_quiet i) = (w.last i ≢ 0) × (40 < sub32 (w.look i) (w.last i)) × (t i < 200)
IsEnd w t (gave_up i) = 200 ≤ t i

pub record Settles (w : SettleClock) (t : ℕ → ℕ) (r : Option SettleEnd) : Type 0 where
  pub end : SettleEnd
  pub returns : r ≡ some end
  pub means : IsEnd w t end

pub elapsed :
    (step started : ℕ) (test t : ℕ → ℕ) (i : ℕ)
    → Ticks step started test t
    → t i < 2 ^ 32
    → sub32 (test i) started ≡ t i
elapsed step started test t i k small = omega (arith, k.reads i, k.begun)

-- One round: the three ways it can go.
settle_round :
    (w : SettleClock) (t : ℕ → ℕ) (fuel i : ℕ)
    → sub32 (w.test i) w.started ≡ t i
    → Settles w t (settle_loop w (suc fuel) i)
      ⊎ (settle_loop w (suc fuel) i ≡ settle_loop w fuel (i + 1)) × (t i < 200)
unfolding settle_loop
settle_round w t fuel i e = elim (Bool-cases (ltb (t i) 200)) [
  | inl early ↦ elim (Bool-cases (not (w.last i == 0) && ltb 40 (sub32 (w.look i) (w.last i)))) [
    | inl quiet ↦ inl (record {
      end = fell_quiet i;
      returns = ground (arith, e, early, quiet);
      means = ground (arith, early, quiet);
    })
    | inr busy ↦ inr (ground (arith, e, early, busy))
  ]
  | inr late ↦
      inl (record {
        end = gave_up i;
        returns = ground (arith, e, late);
        means = ground (arith, late);
      })
]

settle_loop-Settles :
    (w : SettleClock) (t : ℕ → ℕ) (fuel i : ℕ)
    → Ticks 5 w.started w.test t
    → t i < 2 ^ 32
    → 200 ≤ t i + 5 * fuel
    → Settles w t (settle_loop w (suc fuel) i)
settle_loop-Settles w t zero i k small enough =
    elim (settle_round w t 0 i (elapsed 5 w.started w.test t i k small)) [
      | inl done ↦ done
      | inr (_, early) ↦ absurd (omega arith)
    ]
settle_loop-Settles w t (suc fuel) i k small enough =
    elim (settle_round w t (suc fuel) i (elapsed 5 w.started w.test t i k small)) [
      | inl done ↦ done
      | inr (same, early) ↦
          subst (λ (r : Option SettleEnd). Settles w t r) (sym same)
            (settle_loop-Settles w t fuel (i + 1) k (omega (arith, k.over i))
              (omega (arith, k.waits i)))
    ]

-- On a clock on which each round takes at least five milliseconds and less than 2 ^ 31, the wait
-- returns: either it saw the bus quiet for more than forty of them, within two hundred, or two
-- hundred are over.
pub settle_until_quiet-Settles :
    (w : SettleClock) (t : ℕ → ℕ) → Ticks 5 w.started w.test t → Settles w t (settle_until_quiet w)
unfolding settle_until_quiet
settle_until_quiet-Settles w t k =
    settle_loop-Settles w t 40 0 k (omega (arith, k.first)) (omega arith)

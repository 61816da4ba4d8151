-- ===== src/ModbusRtu/Collect.antt =====
-- The loop that waits for the rest of a frame ends, inside the buffer.
use esphome_hcpbridge.Base.{
  ℕ, zero, suc, ◌+◌, ◌-◌, ◌≤◌, ◌<◌, ◌≡◌, refl, ◌⊎◌, inl, inr, arith, Option, some, List, ◌++◌,
  length, length-append, get_or, get_or-append_left, ◌∙◌,
}
use esphome_hcpbridge.ModbusRtu.{collect}

-- A buffer of at most 256 bytes that begins with what was there.
pub record Collects (buf : List ℕ) (r : Option (List ℕ)) : Type 0 where
  pub out : List ℕ
  pub returns : r ≡ some out
  pub fits : length out ≤ 256
  pub longer : length buf ≤ length out
  pub keeps : (k : ℕ) → k < length buf → get_or out k 0 ≡ get_or buf k 0

module _ (read : ℕ → ℕ → List ℕ) (bounded : (i n : ℕ) → length (read i n) ≤ n) where
  collect_round :
      (fuel i : ℕ) (buf : List ℕ)
      → length buf ≤ 256
      → let more = read i (256 - length buf) in
        (collect read (suc fuel) i buf ≡ some buf)
        ⊎ (collect read (suc fuel) i buf ≡ collect read fuel (i + 1) (buf ++ more))
          × (0 < length more)
          × (length buf < 256)
  unfolding collect
  collect_round fuel i buf h = ground arith

  pub collect-Collects :
      (fuel i : ℕ) (buf : List ℕ)
      → length buf ≤ 256
      → 256 < length buf + fuel
      → Collects buf (collect read fuel i buf)
  collect-Collects zero i buf h enough = absurd (omega arith)
  collect-Collects (suc fuel) i buf h enough =
      let more = read i (256 - length buf) in
      elim (collect_round fuel i buf h) [
        | inl done ↦ record {
          out = buf;
          returns = done;
          fits = h;
          longer = omega arith;
          keeps = λ k b. refl;
        }
        | inr (same, some_more, room) ↦
            let len = length-append buf more in
            let rest =
              collect-Collects fuel (i + 1) (buf ++ more)
                (omega (arith, len, bounded i (256 - length buf))) (omega (arith, len)) in
            record {
              out = rest.out;
              returns = same ∙ rest.returns;
              fits = rest.fits;
              longer = omega (arith, rest.longer, len);
              keeps = λ k b. rest.keeps k (omega (arith, len)) ∙ get_or-append_left buf more k 0 b;
            }
      ]

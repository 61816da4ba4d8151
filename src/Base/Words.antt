-- ===== src/Base/Words.antt =====
-- Unsigned words as native numbers: a byte is below 2 ^ 8. `x & (2 ^ k - 1)` is written as a
-- remainder and `x >> k` as a quotient; subtraction of two uint32_t wraps.
use Prim.Native.Nat.{ℕ, zero, suc, ◌+◌, ◌-◌, ◌/◌, ◌%◌, ◌^◌, ◌<◌}
use mathlib.Core.Path.{◌≡◌}
use mathlib.Core.List.{List, [], ◌∷◌, ◌++◌}
use native.Mathlib.Omega.{arith}
use esphome_hcpbridge.Base.Lists.{All, get_or, take}

abbrev pub u8 : ℕ → ℕ
u8 n = n % 2 ^ 8

abbrev pub u16 : ℕ → ℕ
u16 n = n % 2 ^ 16

abbrev pub u32 : ℕ → ℕ
u32 n = n % 2 ^ 32

-- `a - b` of two uint32_t, the way the code measures time.
abbrev pub sub32 : ℕ → ℕ → ℕ
sub32 a b = (a + 2 ^ 32 - b) % 2 ^ 32

abbrev pub hi_byte : ℕ → ℕ
hi_byte v = v / 2 ^ 8

abbrev pub lo_byte : ℕ → ℕ
lo_byte v = v % 2 ^ 8

abbrev pub IsByte : ℕ → Type 0
IsByte b = b < 2 ^ 8

abbrev pub AllBytes : List ℕ → Type 0
AllBytes = All IsByte

-- The time that has passed since `t` is right across a wrap of the clock.
pub sub32-add : (t d : ℕ) → t < 2 ^ 32 → d < 2 ^ 32 → sub32 (u32 (t + d)) t ≡ d
sub32-add t d ht hd = omega arith

pub get_or-IsByte : (bs : List ℕ) (i : ℕ) → AllBytes bs → IsByte (get_or bs i 0)
get_or-IsByte [] i v = omega arith
get_or-IsByte (b ∷ bs) zero v = v.0
get_or-IsByte (b ∷ bs) (suc i) v = get_or-IsByte bs i v.1

pub take-AllBytes : (n : ℕ) (bs : List ℕ) → AllBytes bs → AllBytes (take n bs)
take-AllBytes zero bs v = tt
take-AllBytes (suc n) [] v = tt
take-AllBytes (suc n) (b ∷ bs) v = (v.0, take-AllBytes n bs v.1)

pub append-AllBytes : (xs bs : List ℕ) → AllBytes xs → AllBytes bs → AllBytes (xs ++ bs)
append-AllBytes [] bs u v = v
append-AllBytes (x ∷ xs) bs u v = (u.0, append-AllBytes xs bs u.1 v)

-- ===== src/Base/Bits.antt =====
-- Laws of the bit operations at variables, from their recursion on binary digits. The libraries
-- have only the definitions.
use Prim.Native.Nat.{
  ℕ, zero, suc, ◌+◌, ◌*◌, ◌/◌, ◌%◌, ◌^◌, ◌≤◌, ◌<◌, max, bit_or, bit_xor, digits, differ,
  bit_or-bitwise, bit_xor-bitwise,
}
use mathlib.Core.Path.{◌≡◌, refl, ◌∙◌}
use native.Mathlib.Nat.{pow-suc}
use native.Mathlib.Omega.{arith}

-- Fuel from the first operand on is enough for a recursion on digits, and more changes nothing.
module _ (last : ℕ → ℕ) (op : ℕ → ℕ → ℕ) where
  same_digits :
      (x y given spent : ℕ)
      → x ≤ spent
      → x ≤ given
      → digits last op given x y ≡ digits last op spent x y
  same_digits zero y (suc given) (suc spent) low high = refl
  same_digits zero y (suc given) zero low high = refl
  same_digits zero y zero (suc spent) low high = refl
  same_digits zero y zero zero low high = refl
  same_digits (suc x) y given zero low high = absurd (omega arith)
  same_digits (suc x) y zero (suc spent) low high = absurd (omega arith)
  same_digits (suc x) y (suc given) (suc spent) low high =
      let rest = same_digits (suc x / 2) (y / 2) given spent (omega arith) (omega arith) in rw rest

abbrev keep : ℕ → ℕ
keep b = b

pub zero-bit_or : (b : ℕ) → bit_or 0 b ≡ b
zero-bit_or b = bit_or-bitwise 0 b

zero-bit_xor : (b : ℕ) → bit_xor 0 b ≡ b
zero-bit_xor b = bit_xor-bitwise 0 b

bit_or_halves : (x y : ℕ) → bit_or x y ≡ bit_or (x / 2) (y / 2) * 2 + max (x % 2) (y % 2)
bit_or_halves zero b = omega (arith, zero-bit_or b, zero-bit_or (b / 2))
bit_or_halves (suc a) b = omega (
  arith,
  bit_or-bitwise (suc a) b,
  bit_or-bitwise (suc a / 2) (b / 2),
  same_digits keep max (suc a / 2) (b / 2) a (suc a / 2) (omega arith) (omega arith),
)

pub bit_xor_step : (a b : ℕ) → bit_xor a b ≡ bit_xor (a / 2) (b / 2) * 2 + differ (a % 2) (b % 2)
bit_xor_step zero b = omega (arith, zero-bit_xor b, zero-bit_xor (b / 2))
bit_xor_step (suc a) b = omega (
  arith,
  bit_xor-bitwise (suc a) b,
  bit_xor-bitwise (suc a / 2) (b / 2),
  same_digits keep differ (suc a / 2) (b / 2) a (suc a / 2) (omega arith) (omega arith),
)

-- The two digits of an exclusive or.
record IsDigit (x y d : ℕ) : Type 0 where
  small : d < 2
  undo_right : differ d y ≡ x
  undo_left : differ x d ≡ y

differ-IsDigit : (x y : ℕ) → x < 2 → y < 2 → IsDigit x y (differ x y)
differ-IsDigit zero zero hx hy = omega arith
differ-IsDigit zero (suc zero) hx hy = omega arith
differ-IsDigit (suc zero) zero hx hy = omega arith
differ-IsDigit (suc zero) (suc zero) hx hy = omega arith
differ-IsDigit x (suc (suc y)) hx hy = absurd (omega arith)
differ-IsDigit (suc (suc x)) y hx hy = absurd (omega arith)

pub bit_or-lt : (k a b : ℕ) → a < 2 ^ k → b < 2 ^ k → bit_or a b < 2 ^ k
bit_or-lt zero zero b ha hb = omega (arith, zero-bit_or b)
bit_or-lt zero (suc a) b ha hb = absurd (omega arith)
bit_or-lt (suc k) a b ha hb =
    let half : bit_or (a / 2) (b / 2) < 2 ^ k =
      bit_or-lt k (a / 2) (b / 2) (omega (arith, pow-suc 2 k)) (omega (arith, pow-suc 2 k)) in
    omega (arith, bit_or_halves a b, pow-suc 2 k)

-- An exclusive or fits the width of its operands, and doing it twice undoes it.
pub record IsXor (k a b c : ℕ) : Type 0 where
  pub fits : c < 2 ^ k
  pub undo_right : bit_xor c b ≡ a
  pub undo_left : bit_xor a c ≡ b

-- One more digit.
IsXor-suc :
    (k a b : ℕ)
    → IsXor k (a / 2) (b / 2) (bit_xor (a / 2) (b / 2))
    → IsXor (suc k) a b (bit_xor a b)
IsXor-suc k a b rest = record {
  fits = omega (arith, here, pow-suc 2 k, rest.fits, digit.small);
  undo_right =
      bit_xor_step (bit_xor a b) b
      ∙ (rw (half, low, rest.undo_right, digit.undo_right) (omega arith));
  undo_left =
      bit_xor_step a (bit_xor a b)
      ∙ (rw (half, low, rest.undo_left, digit.undo_left) (omega arith));
}
  where
    digit : IsDigit (a % 2) (b % 2) (differ (a % 2) (b % 2))
    digit = differ-IsDigit (a % 2) (b % 2) (omega arith) (omega arith)

    here : bit_xor a b ≡ bit_xor (a / 2) (b / 2) * 2 + differ (a % 2) (b % 2)
    here = bit_xor_step a b

    half : bit_xor a b / 2 ≡ bit_xor (a / 2) (b / 2)
    half = omega (arith, here, digit.small)

    low : bit_xor a b % 2 ≡ differ (a % 2) (b % 2)
    low = omega (arith, here, digit.small)

pub bit_xor-IsXor : (k a b : ℕ) → a < 2 ^ k → b < 2 ^ k → IsXor k a b (bit_xor a b)
bit_xor-IsXor zero zero zero ha hb = omega arith
bit_xor-IsXor zero zero (suc b) ha hb = absurd (omega arith)
bit_xor-IsXor zero (suc a) b ha hb = absurd (omega arith)
bit_xor-IsXor (suc k) a b ha hb =
    IsXor-suc k a b
      (bit_xor-IsXor k (a / 2) (b / 2) (omega (arith, pow-suc 2 k)) (omega (arith, pow-suc 2 k)))

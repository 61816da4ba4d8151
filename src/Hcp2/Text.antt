-- ===== src/Hcp2/Text.antt =====
-- `identityToText`: what the drive says about itself is cut down to something printable.
use esphome_hcpbridge.Base.{
  zero, suc, true, false, Bool, ℕ, ◌-◌, ◌≤◌, ◌≡◌, refl, ◌==◌, arith, List, [], ◌∷◌, length, All,
}
use esphome_hcpbridge.Hcp2.Identity.{is_printable, printable_front, trim_end, identity_to_text}

length-printable_front : (room : ℕ) (bytes : List ℕ) → length (printable_front room bytes) ≤ room
unfolding printable_front
length-printable_front zero bytes = ground arith
length-printable_front (suc room) [] = ground arith
length-printable_front (suc room) (b ∷ bs) = ground (arith, length-printable_front room bs)

pub IsPrintable : ℕ → Type 0
IsPrintable b = is_printable b ≡ true

printable_front-IsPrintable :
    (room : ℕ) (bytes : List ℕ) → All IsPrintable (printable_front room bytes)
unfolding printable_front IsPrintable
printable_front-IsPrintable zero bytes = ground arith
printable_front-IsPrintable (suc room) [] = ground arith
printable_front-IsPrintable (suc room) (b ∷ bs) =
    ground (arith, printable_front-IsPrintable room bs)

length-trim_end : (bytes : List ℕ) → length (trim_end bytes) ≤ length bytes
unfolding trim_end
length-trim_end [] = ground arith
length-trim_end (b ∷ bs) = ground (arith, length-trim_end bs)

trim_end-All : (bytes : List ℕ) → All IsPrintable bytes → All IsPrintable (trim_end bytes)
unfolding trim_end
trim_end-All [] h = ground arith
trim_end-All (b ∷ bs) h = ground (arith, trim_end-All bs)

-- The last byte is not a space.
pub ends_in_space : List ℕ → Bool
ends_in_space [] = false
ends_in_space (b ∷ []) = b == 0x20
ends_in_space (b ∷ x ∷ xs) = ends_in_space (x ∷ xs)

trim_end-tight : (bytes : List ℕ) → ends_in_space (trim_end bytes) ≡ false
unfolding trim_end ends_in_space
trim_end-tight [] = refl
trim_end-tight (b ∷ bs) = ground (arith, trim_end-tight bs)

-- The text made of what the drive says about itself leaves room for the closing NUL, holds
-- printable bytes only and does not end in a space.
pub identity_to_text_lem :
    (bytes : List ℕ) (out_size : ℕ)
    → let text = identity_to_text bytes out_size in
      (length text ≤ out_size - 1) × All IsPrintable text × (ends_in_space text ≡ false)
unfolding identity_to_text
identity_to_text_lem bytes out_size =
    let front = printable_front (out_size - 1) bytes in
    (
      ground (arith, length-trim_end front, length-printable_front (out_size - 1) bytes),
      trim_end-All front (printable_front-IsPrintable (out_size - 1) bytes),
      trim_end-tight front,
    )

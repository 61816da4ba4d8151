-- ===== src/Hcp2Frame/Checksum.antt =====
-- `hcp2Crc16`: the register stays a uint16_t, and no two registers or bytes meet, so a frame with
-- one byte changed has another checksum.
use esphome_hcpbridge.Base.{
  ℕ, zero, suc, ◌/◌, ◌^◌, ◌≤◌, ◌<◌, ◌≡◌, refl, sym, ◌∙◌, ap, List, [], ◌∷◌, ◌++◌, arith, ltb,
  bit_xor, IsXor, bit_xor-IsXor, AllBytes, IsByte, Bool-cases, inl, inr,
}
use esphome_hcpbridge.Hcp2Frame.{crc16_bit, crc16_bits, crc16_from, hcp2_crc16}

abbrev IsWord : ℕ → Type 0
IsWord c = c < 2 ^ 16

IsXor-poly : (c : ℕ) → IsWord c → IsXor 16 (c / 2) 0xa001 (bit_xor (c / 2) 0xa001)
IsXor-poly c h = bit_xor-IsXor 16 (c / 2) 0xa001 (omega arith) (omega arith)

crc16_bit-IsWord : (c : ℕ) → IsWord c → IsWord (crc16_bit c)
unfolding crc16_bit
crc16_bit-IsWord c h = ground (arith, IsXor-poly c h)

-- The polynomial's top bit tells a round that used it from one that did not.
xor_poly-large : (c : ℕ) → IsWord c → 2 ^ 15 ≤ bit_xor (c / 2) 0xa001
xor_poly-large c h = elim (Bool-cases (ltb (bit_xor (c / 2) 0xa001) (2 ^ 15))) [
  | inl small ↦ absurd (
      omega (
        arith,
        (IsXor-poly c h).undo_left,
        (bit_xor-IsXor 15 (c / 2) (bit_xor (c / 2) 0xa001) (omega arith) (ground arith)).fits,
      ))
  | inr large ↦ ground arith
]

crc16_bit-injective : (x y : ℕ) → IsWord x → IsWord y → crc16_bit x ≡ crc16_bit y → x ≡ y
unfolding crc16_bit
crc16_bit-injective x y hx hy e = ground (
  arith,
  IsXor-poly x hx,
  IsXor-poly y hy,
  xor_poly-large x hx,
  xor_poly-large y hy,
  ap (λ (t : ℕ). bit_xor t 0xa001) e,
)

crc16_bits-IsWord : (n c : ℕ) → IsWord c → IsWord (crc16_bits n c)
unfolding crc16_bits
crc16_bits-IsWord zero c h = h
crc16_bits-IsWord (suc n) c h = crc16_bits-IsWord n (crc16_bit c) (crc16_bit-IsWord c h)

crc16_bits-injective : (n x y : ℕ) → IsWord x → IsWord y → crc16_bits n x ≡ crc16_bits n y → x ≡ y
unfolding crc16_bits
crc16_bits-injective zero x y hx hy e = e
crc16_bits-injective (suc n) x y hx hy e = crc16_bit-injective x y hx hy (
    crc16_bits-injective n (crc16_bit x) (crc16_bit y) (crc16_bit-IsWord x hx)
      (crc16_bit-IsWord y hy) e)

IsXor-byte : (c b : ℕ) → IsWord c → IsByte b → IsXor 16 c b (bit_xor c b)
IsXor-byte c b hc hb = bit_xor-IsXor 16 c b hc (omega arith)

pub crc16_from-IsWord : (bs : List ℕ) (c : ℕ) → IsWord c → AllBytes bs → IsWord (crc16_from c bs)
unfolding crc16_from
crc16_from-IsWord [] c h v = h
crc16_from-IsWord (b ∷ bs) c h v =
    crc16_from-IsWord bs (crc16_bits 8 (bit_xor c b))
      (crc16_bits-IsWord 8 (bit_xor c b) (IsXor-byte c b h v.0).fits) v.1

-- Two registers that differ still differ after the same bytes.
crc16_from-injective :
    (bs : List ℕ) (x y : ℕ)
    → IsWord x
    → IsWord y
    → AllBytes bs
    → crc16_from x bs ≡ crc16_from y bs
    → x ≡ y
unfolding crc16_from
crc16_from-injective [] x y hx hy v e = e
crc16_from-injective (b ∷ bs) x y hx hy v e =
    let p = IsXor-byte x b hx v.0 in
    let q = IsXor-byte y b hy v.0 in
    let met : bit_xor x b ≡ bit_xor y b =
      crc16_bits-injective 8 (bit_xor x b) (bit_xor y b) p.fits q.fits (
        crc16_from-injective bs (crc16_bits 8 (bit_xor x b)) (crc16_bits 8 (bit_xor y b))
          (crc16_bits-IsWord 8 (bit_xor x b) p.fits) (crc16_bits-IsWord 8 (bit_xor y b) q.fits) v.1
          e) in
    sym p.undo_right ∙ ap (λ (t : ℕ). bit_xor t b) met ∙ q.undo_right

crc16_from-append :
    (xs ys : List ℕ) (c : ℕ) → crc16_from c (xs ++ ys) ≡ crc16_from (crc16_from c xs) ys
unfolding crc16_from
crc16_from-append [] ys c = refl
crc16_from-append (x ∷ xs) ys c = crc16_from-append xs ys (crc16_bits 8 (bit_xor c x))

crc16_from_byte :
    (c x y : ℕ) (bs : List ℕ)
    → IsWord c
    → IsByte x
    → IsByte y
    → AllBytes bs
    → crc16_from c (x ∷ bs) ≡ crc16_from c (y ∷ bs)
    → x ≡ y
unfolding crc16_from
crc16_from_byte c x y bs hc hx hy v e =
    let p = IsXor-byte c x hc hx in
    let q = IsXor-byte c y hc hy in
    let met : bit_xor c x ≡ bit_xor c y =
      crc16_bits-injective 8 (bit_xor c x) (bit_xor c y) p.fits q.fits (
        crc16_from-injective bs (crc16_bits 8 (bit_xor c x)) (crc16_bits 8 (bit_xor c y))
          (crc16_bits-IsWord 8 (bit_xor c x) p.fits) (crc16_bits-IsWord 8 (bit_xor c y) q.fits) v
          e) in
    sym p.undo_left ∙ ap (bit_xor c) met ∙ q.undo_left

pub hcp2_crc16-IsWord : (bs : List ℕ) → AllBytes bs → hcp2_crc16 bs < 2 ^ 16
unfolding hcp2_crc16
hcp2_crc16-IsWord bs v = crc16_from-IsWord bs 0xffff (omega arith) v

-- The checksum tells apart any two frames that differ in one byte.
pub hcp2_crc16_byte :
    (front back : List ℕ) (x y : ℕ)
    → AllBytes front
    → AllBytes back
    → IsByte x
    → IsByte y
    → hcp2_crc16 (front ++ x ∷ back) ≡ hcp2_crc16 (front ++ y ∷ back)
    → x ≡ y
unfolding hcp2_crc16
hcp2_crc16_byte front back x y hf hb hx hy e =
    crc16_from_byte (crc16_from 0xffff front) x y back
      (crc16_from-IsWord front 0xffff (omega arith) hf) hx hy hb
      (sym (crc16_from-append front (x ∷ back) 0xffff)
        ∙ e
        ∙ crc16_from-append front (y ∷ back) 0xffff)

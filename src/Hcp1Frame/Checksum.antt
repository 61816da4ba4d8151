-- ===== src/Hcp1Frame/Checksum.antt =====
-- `hcp1Crc16`: the register stays a uint8_t, and no two registers or bytes meet, so a frame with
-- one byte changed has another checksum.
use Prim.Native.Nat.{differ}
use esphome_hcpbridge.Base.{
  ℕ, zero, suc, ◌*◌, ◌%◌, ◌^◌, ◌<◌, ◌≡◌, refl, sym, ◌∙◌, ap, List, [], ◌∷◌, ◌++◌, arith, bit_xor,
  IsXor, bit_xor-IsXor, bit_xor_step, u8, AllBytes, IsByte,
}
use esphome_hcpbridge.Hcp1Frame.{crc8_bit, crc8_bits, crc8_from, hcp1_crc8}

abbrev IsRegister : ℕ → Type 0
IsRegister c = c < 2 ^ 8

IsXor-poly : (c : ℕ) → IsXor 8 (u8 (c * 2)) 0x07 (bit_xor (u8 (c * 2)) 0x07)
IsXor-poly c = bit_xor-IsXor 8 (u8 (c * 2)) 0x07 (omega arith) (omega arith)

crc8_bit-IsRegister : (c : ℕ) → IsRegister c → IsRegister (crc8_bit c)
unfolding crc8_bit
crc8_bit-IsRegister c h = ground (arith, IsXor-poly c)

-- The polynomial's lowest bit tells a round that used it from one that did not.
xor_poly_odd : (c : ℕ) → bit_xor (u8 (c * 2)) 0x07 % 2 ≡ 1
xor_poly_odd c =
    let even : u8 (c * 2) % 2 ≡ 0 = omega arith in
    omega (arith, bit_xor_step (u8 (c * 2)) 0x07, ap (λ (t : ℕ). differ t 1) even)

crc8_bit-injective : (x y : ℕ) → IsRegister x → IsRegister y → crc8_bit x ≡ crc8_bit y → x ≡ y
unfolding crc8_bit
crc8_bit-injective x y hx hy e = ground (
  arith,
  IsXor-poly x,
  IsXor-poly y,
  xor_poly_odd x,
  xor_poly_odd y,
  ap (λ (t : ℕ). bit_xor t 0x07) e,
)

crc8_bits-IsRegister : (n c : ℕ) → IsRegister c → IsRegister (crc8_bits n c)
unfolding crc8_bits
crc8_bits-IsRegister zero c h = h
crc8_bits-IsRegister (suc n) c h = crc8_bits-IsRegister n (crc8_bit c) (crc8_bit-IsRegister c h)

crc8_bits-injective :
    (n x y : ℕ) → IsRegister x → IsRegister y → crc8_bits n x ≡ crc8_bits n y → x ≡ y
unfolding crc8_bits
crc8_bits-injective zero x y hx hy e = e
crc8_bits-injective (suc n) x y hx hy e = crc8_bit-injective x y hx hy (
    crc8_bits-injective n (crc8_bit x) (crc8_bit y) (crc8_bit-IsRegister x hx)
      (crc8_bit-IsRegister y hy) e)

IsXor-byte : (c b : ℕ) → IsRegister c → IsByte b → IsXor 8 c b (bit_xor c b)
IsXor-byte c b hc hb = bit_xor-IsXor 8 c b hc hb

pub crc8_from-IsRegister :
    (bs : List ℕ) (c : ℕ) → IsRegister c → AllBytes bs → IsRegister (crc8_from c bs)
unfolding crc8_from
crc8_from-IsRegister [] c h v = h
crc8_from-IsRegister (b ∷ bs) c h v =
    crc8_from-IsRegister bs (crc8_bits 8 (bit_xor c b))
      (crc8_bits-IsRegister 8 (bit_xor c b) (IsXor-byte c b h v.0).fits) v.1

-- Two registers that differ still differ after the same bytes.
crc8_from-injective :
    (bs : List ℕ) (x y : ℕ)
    → IsRegister x
    → IsRegister y
    → AllBytes bs
    → crc8_from x bs ≡ crc8_from y bs
    → x ≡ y
unfolding crc8_from
crc8_from-injective [] x y hx hy v e = e
crc8_from-injective (b ∷ bs) x y hx hy v e =
    let p = IsXor-byte x b hx v.0 in
    let q = IsXor-byte y b hy v.0 in
    let met : bit_xor x b ≡ bit_xor y b =
      crc8_bits-injective 8 (bit_xor x b) (bit_xor y b) p.fits q.fits (
        crc8_from-injective bs (crc8_bits 8 (bit_xor x b)) (crc8_bits 8 (bit_xor y b))
          (crc8_bits-IsRegister 8 (bit_xor x b) p.fits)
          (crc8_bits-IsRegister 8 (bit_xor y b) q.fits) v.1 e) in
    sym p.undo_right ∙ ap (λ (t : ℕ). bit_xor t b) met ∙ q.undo_right

crc8_from-append : (xs ys : List ℕ) (c : ℕ) → crc8_from c (xs ++ ys) ≡ crc8_from (crc8_from c xs) ys
unfolding crc8_from
crc8_from-append [] ys c = refl
crc8_from-append (x ∷ xs) ys c = crc8_from-append xs ys (crc8_bits 8 (bit_xor c x))

crc8_from_byte :
    (c x y : ℕ) (bs : List ℕ)
    → IsRegister c
    → IsByte x
    → IsByte y
    → AllBytes bs
    → crc8_from c (x ∷ bs) ≡ crc8_from c (y ∷ bs)
    → x ≡ y
unfolding crc8_from
crc8_from_byte c x y bs hc hx hy v e =
    let p = IsXor-byte c x hc hx in
    let q = IsXor-byte c y hc hy in
    let met : bit_xor c x ≡ bit_xor c y =
      crc8_bits-injective 8 (bit_xor c x) (bit_xor c y) p.fits q.fits (
        crc8_from-injective bs (crc8_bits 8 (bit_xor c x)) (crc8_bits 8 (bit_xor c y))
          (crc8_bits-IsRegister 8 (bit_xor c x) p.fits)
          (crc8_bits-IsRegister 8 (bit_xor c y) q.fits) v e) in
    sym p.undo_left ∙ ap (bit_xor c) met ∙ q.undo_left

pub hcp1_crc8-IsRegister : (bs : List ℕ) → AllBytes bs → hcp1_crc8 bs < 2 ^ 8
unfolding hcp1_crc8
hcp1_crc8-IsRegister bs v = crc8_from-IsRegister bs 0xf3 (omega arith) v

-- The checksum tells apart any two frames that differ in one byte.
pub hcp1_crc8_byte :
    (front back : List ℕ) (x y : ℕ)
    → AllBytes front
    → AllBytes back
    → IsByte x
    → IsByte y
    → hcp1_crc8 (front ++ x ∷ back) ≡ hcp1_crc8 (front ++ y ∷ back)
    → x ≡ y
unfolding hcp1_crc8
hcp1_crc8_byte front back x y hf hb hx hy e =
    crc8_from_byte (crc8_from 0xf3 front) x y back
      (crc8_from-IsRegister front 0xf3 (omega arith) hf) hx hy hb
      (sym (crc8_from-append front (x ∷ back) 0xf3) ∙ e ∙ crc8_from-append front (y ∷ back) 0xf3)

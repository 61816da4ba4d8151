-- ===== src/Hcp2Frame/RoundTrip.antt =====
-- `hcp2Finish` and `hcp2Validate`: what one writes the other accepts, and the other way round.
use esphome_hcpbridge.Base.{
  ℕ, zero, suc, ◌+◌, ◌-◌, ◌*◌, ◌≤◌, ◌<◌, ◌≡◌, refl, sym, ◌∙◌, ap, List, [], ◌∷◌, ◌++◌, arith, ◌==◌,
  ltb, if◌then◌else◌, AllBytes, IsByte, ◌≢◌, length, take, get_or, length-append, length-take,
  get_or-IsByte, take-append, get_or-append_right, hi_byte, lo_byte,
}
use esphome_hcpbridge.Hcp2Frame.{hcp2_crc16, hcp2_validate, hcp2_finish}
use esphome_hcpbridge.Hcp2Frame.Checksum.{hcp2_crc16_byte}

-- `hcp2Validate` of a frame behind which the two checksum bytes stand.
pub hcp2_validate-append :
    (frame : List ℕ) (lo hi : ℕ)
    → hcp2_validate (frame ++ (lo ∷ hi ∷ [])) ≡ (
        if ltb (length frame) 2
        then 0
        else (if lo + hi * 256 == hcp2_crc16 frame then length frame else 0))
unfolding hcp2_validate
hcp2_validate-append frame lo hi = ground (
  arith,
  length-append frame (lo ∷ hi ∷ []),
  take-append frame (lo ∷ hi ∷ []) (length (frame ++ (lo ∷ hi ∷ [])) - 2),
  get_or-append_right frame (lo ∷ hi ∷ []) (length (frame ++ (lo ∷ hi ∷ [])) - 2) 0 0,
  get_or-append_right frame (lo ∷ hi ∷ []) (length (frame ++ (lo ∷ hi ∷ [])) - 1) 1 0,
)

pub hcp2_finish_lem :
    (frame : List ℕ) (cap : ℕ)
    → 0 < length frame
    → length frame + 2 ≤ cap
    → hcp2_finish frame cap
      ≡ frame ++ (lo_byte (hcp2_crc16 frame) ∷ hi_byte (hcp2_crc16 frame) ∷ [])
unfolding hcp2_finish
hcp2_finish_lem frame cap h room = ground arith

-- A frame of at least two bytes that fits the buffer with its checksum is accepted at its own
-- length once it is finished, and its bytes are the ones that were written.
pub hcp2_validate-finish :
    (frame : List ℕ) (cap : ℕ)
    → 2 ≤ length frame
    → length frame + 2 ≤ cap
    → (hcp2_validate (hcp2_finish frame cap) ≡ length frame)
      × (take (length frame) (hcp2_finish frame cap) ≡ frame)
hcp2_validate-finish frame cap h room =
    let crc = hcp2_crc16 frame in
    let tail = lo_byte crc ∷ hi_byte crc ∷ [] in
    rw (hcp2_finish_lem frame cap (omega arith) room) (
      ground (arith, hcp2_validate-append frame (lo_byte crc) (hi_byte crc)),
      take-append frame tail (length frame) refl,
    )

-- A list of two items or more, cut before the last two.
last_two :
    (xs : List ℕ) (n : ℕ)
    → length xs ≡ n + 2
    → xs ≡ take n xs ++ (get_or xs n 0 ∷ get_or xs (suc n) 0 ∷ [])
last_two [] n h = absurd (omega arith)
last_two (x ∷ []) n h = absurd (omega arith)
last_two (x ∷ y ∷ []) zero h = refl
last_two (x ∷ y ∷ z ∷ xs) zero h = absurd (omega arith)
last_two (x ∷ y ∷ xs) (suc n) h = ap (◌∷◌ x) (last_two (y ∷ xs) n (omega arith))

hcp2_validate_cases :
    (buf : List ℕ) (n : ℕ)
    → hcp2_validate buf ≡ n
    → 0 < n
    → (length buf ≡ n + 2) × (get_or buf n 0 + get_or buf (suc n) 0 * 256 ≡ hcp2_crc16 (take n buf))
unfolding hcp2_validate
hcp2_validate_cases buf n e pos = ground arith

-- Bytes that are accepted as a frame are the ones that `hcp2Finish` makes of their own front
-- part.
pub hcp2_finish-validate :
    (buf : List ℕ) (n : ℕ)
    → AllBytes buf
    → hcp2_validate buf ≡ n
    → 0 < n
    → (length buf ≡ n + 2) × (hcp2_finish (take n buf) (length buf) ≡ buf)
hcp2_finish-validate buf n v e pos =
    let fits = hcp2_validate_cases buf n e pos in
    let front = take n buf in
    let len : length front ≡ n = omega (arith, length-take n buf, fits.0) in
    (
      fits.0,
      hcp2_finish_lem front (length buf) (omega arith) (omega (arith, fits.0))
          ∙ ap (◌++◌ front)
              (ground (arith, fits, get_or-IsByte buf n v, get_or-IsByte buf (suc n) v))
          ∙ sym (last_two buf n fits.0),
    )

-- An accepted frame of bytes in which one byte before the checksum is changed is refused.
pub hcp2_validate_corrupt :
    (front back : List ℕ) (x y lo hi : ℕ)
    → AllBytes front
    → AllBytes back
    → IsByte x
    → IsByte y
    → x ≢ y
    → 0 < hcp2_validate ((front ++ x ∷ back) ++ (lo ∷ hi ∷ []))
    → hcp2_validate ((front ++ y ∷ back) ++ (lo ∷ hi ∷ [])) ≡ 0
hcp2_validate_corrupt front back x y lo hi hf hb hx hy ne ok = ground (
  arith,
  hcp2_validate-append (front ++ x ∷ back) lo hi,
  hcp2_validate-append (front ++ y ∷ back) lo hi,
  λ (e : hcp2_crc16 (front ++ x ∷ back) ≡ hcp2_crc16 (front ++ y ∷ back)).
      ne (hcp2_crc16_byte front back x y hf hb hx hy e),
)

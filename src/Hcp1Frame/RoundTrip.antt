-- ===== src/Hcp1Frame/RoundTrip.antt =====
-- `hcp1Build` and `hcp1Parse`: what one writes the other reads, and the other way round.
use esphome_hcpbridge.Base.{
  ℕ, zero, suc, ◌+◌, ◌-◌, ◌*◌, ◌/◌, ◌%◌, ◌≤◌, ◌≡◌, refl, sym, ◌∙◌, ap, List, [], ◌∷◌, ◌++◌, arith,
  AllBytes, IsByte, ◌≢◌, length, take, drop, get_or, length-append, take-append,
  get_or-append_right, none, some, length-take,
}
use esphome_hcpbridge.Hcp1Frame.{Hcp1Frame, hcp1_crc8, hcp1_parse, hcp1_build}
use esphome_hcpbridge.Hcp1Frame.Checksum.{hcp1_crc8_byte}

abbrev parsed : List ℕ → Hcp1Frame
parsed frame = record {
  address = get_or frame 0 0;
  counter = get_or frame 1 0 / 16;
  payload = take (get_or frame 1 0 % 16) (drop 2 frame);
}

-- A frame without its checksum: address, counter and length, payload.
abbrev header : ℕ → ℕ → List ℕ → List ℕ
header a c payload = a ∷ ((c % 16) * 16 + length payload) ∷ payload

pub hcp1_build_lem :
    (cap a c : ℕ) (payload : List ℕ)
    → length payload ≤ 13
    → length payload + 3 ≤ cap
    → hcp1_build cap a c payload ≡ header a c payload ++ (hcp1_crc8 (header a c payload) ∷ [])
unfolding hcp1_build
hcp1_build_lem cap a c payload h room = ground arith

-- The payload ends where the checksum begins.
hcp1_parse-header :
    (a c crc : ℕ) (payload : List ℕ)
    → length payload ≤ 13
    → hcp1_crc8 (header a c payload) ≡ crc
    → hcp1_parse (header a c payload ++ (crc ∷ []))
      ≡ some (record { address = a; counter = c % 16; payload = payload })
unfolding hcp1_parse
hcp1_parse-header a c crc payload h e = ground (
  arith,
  length-append payload (crc ∷ []),
  take-append (header a c payload) (crc ∷ []) (length (header a c payload ++ (crc ∷ [])) - 1),
  get_or-append_right (header a c payload) (crc ∷ [])
      (length (header a c payload ++ (crc ∷ [])) - 1) 0 0,
  take-append payload (crc ∷ []) (((c % 16) * 16 + length payload) % 16),
)

-- A payload of at most 13 bytes that fits the buffer is read back as it was written, under the
-- address given and the lower four bits of the counter.
pub hcp1_parse-build :
    (cap a c : ℕ) (payload : List ℕ)
    → length payload ≤ 13
    → length payload + 3 ≤ cap
    → hcp1_parse (hcp1_build cap a c payload)
      ≡ some (record { address = a; counter = c % 16; payload = payload })
hcp1_parse-build cap a c payload h room =
    rw (hcp1_build_lem cap a c payload h room)
      (hcp1_parse-header a c (hcp1_crc8 (header a c payload)) payload h refl)

hcp1_parse_checksum :
    (frame : List ℕ) (crc : ℕ) (f : Hcp1Frame)
    → hcp1_parse (frame ++ (crc ∷ [])) ≡ some f
    → hcp1_crc8 frame ≡ crc
unfolding hcp1_parse
hcp1_parse_checksum frame crc f e = ground (
  arith,
  length-append frame (crc ∷ []),
  take-append frame (crc ∷ []) (length (frame ++ (crc ∷ [])) - 1),
  get_or-append_right frame (crc ∷ []) (length (frame ++ (crc ∷ [])) - 1) 0 0,
)

hcp1_parse_refuses :
    (frame : List ℕ) (crc : ℕ) → hcp1_crc8 frame ≢ crc → hcp1_parse (frame ++ (crc ∷ [])) ≡ none
unfolding hcp1_parse
hcp1_parse_refuses frame crc ne = ground (
  arith,
  length-append frame (crc ∷ []),
  take-append frame (crc ∷ []) (length (frame ++ (crc ∷ [])) - 1),
  get_or-append_right frame (crc ∷ []) (length (frame ++ (crc ∷ [])) - 1) 0 0,
)

-- A frame of bytes that parses, in which one byte before the checksum is changed, parses no more.
pub hcp1_parse_corrupt :
    (front back : List ℕ) (x y crc : ℕ) (f : Hcp1Frame)
    → AllBytes front
    → AllBytes back
    → IsByte x
    → IsByte y
    → x ≢ y
    → hcp1_parse ((front ++ x ∷ back) ++ (crc ∷ [])) ≡ some f
    → hcp1_parse ((front ++ y ∷ back) ++ (crc ∷ [])) ≡ none
hcp1_parse_corrupt front back x y crc f hf hb hx hy ne ok =
    hcp1_parse_refuses (front ++ y ∷ back) crc (λ e. ne (
      hcp1_crc8_byte front back x y hf hb hx hy
        (hcp1_parse_checksum (front ++ x ∷ back) crc f ok ∙ sym e)))

last_one : (xs : List ℕ) (n : ℕ) → length xs ≡ suc n → xs ≡ take n xs ++ (get_or xs n 0 ∷ [])
last_one [] n h = absurd (omega arith)
last_one (x ∷ []) zero h = refl
last_one (x ∷ []) (suc n) h = absurd (omega arith)
last_one (x ∷ y ∷ xs) zero h = absurd (omega arith)
last_one (x ∷ y ∷ xs) (suc n) h = ap (◌∷◌ x) (last_one (y ∷ xs) n (omega arith))

-- What the tests of `hcp1Parse` establish of an accepted frame.
record IsRead (a h : ℕ) (rest : List ℕ) (f : Hcp1Frame) : Type 0 where
  small : h % 16 ≤ 13
  declared : length rest ≡ suc (h % 16)
  checked : hcp1_crc8 (a ∷ h ∷ take (h % 16) rest) ≡ get_or rest (h % 16) 0
  is_address : f.address ≡ a
  is_counter : f.counter ≡ h / 16
  is_payload : f.payload ≡ take (h % 16) rest

hcp1_parse-IsRead :
    (a h : ℕ) (rest : List ℕ) (f : Hcp1Frame)
    → hcp1_parse (a ∷ h ∷ rest) ≡ some f
    → IsRead a h rest f
unfolding hcp1_parse
hcp1_parse-IsRead a h rest f e = ground arith

-- Bytes that parse are exactly what `hcp1Build` makes of the fields that were read.
pub hcp1_build-parse :
    (buf : List ℕ) (f : Hcp1Frame)
    → AllBytes buf
    → hcp1_parse buf ≡ some f
    → hcp1_build 16 f.address f.counter f.payload ≡ buf
hcp1_build-parse [] f v e = absurd (unfold hcp1_parse in cc e)
hcp1_build-parse (a ∷ []) f v e = absurd (unfold hcp1_parse in cc e)
hcp1_build-parse (a ∷ h ∷ rest) f v e =
    let r = hcp1_parse-IsRead a h rest f e in
    let n : ℕ = h % 16 in
    let len : length (take n rest) ≡ n = omega (arith, length-take n rest, r.declared) in
    let byte : h / 16 % 16 * 16 + length (take n rest) ≡ h = omega (arith, len, v.1.0) in
    rw (r.is_address, r.is_counter, r.is_payload)
      (hcp1_build_lem 16 a (h / 16) (take n rest) (omega (arith, len, r.small))
          (omega (arith, len, r.small))
        ∙ (rw (byte, r.checked) (ap (λ t. a ∷ h ∷ t) (sym (last_one rest n r.declared)))))

-- ===== src/Hcp2/Wire.antt =====
-- What an answer of hcp2_codec.cpp carries on the wire, read off its bytes.
pub mod Registers
pub mod Served
pub mod Answered
pub mod Frames
use esphome_hcpbridge.Base.{
  ℕ, zero, suc, ◌+◌, ◌*◌, ◌≤◌, ◌<◌, ◌≡◌, refl, sym, subst, ap, ap₂, ◌^◌, ◌∙◌, Bool, true, false,
  not, ◌&&◌, ◌||◌, ◌==◌, leb, List, [], ◌∷◌, ◌++◌, arith, get_or, length, u8, u16, inl, inr,
  Bool-cases, hi_byte, lo_byte,
}
use esphome_hcpbridge.Hcp2Frame.{hcp2_finish, hcp2_max_frame, hcp2_crc16}
use esphome_hcpbridge.Hcp2Frame.RoundTrip.{hcp2_finish_lem}
use esphome_hcpbridge.Hcp2.Codec.{rd16}
use esphome_hcpbridge.Hcp2.Frame.{resp_bytes}
use esphome_hcpbridge.Hcp2.Answers.{length-resp_bytes}

-- The third and the fourth word of an answer press a key unless they are one of the other things
-- that stand there: nothing, or a request in the high byte; our address, in a pause; and the words
-- of a bus scan.
unfoldable pub holds_key : ℕ → ℕ → Bool
holds_key w2 w3 =
    not (lo_byte w2 == 0 && w3 == 0)
    && not (w2 == 0x02 && w3 == 0)
    && not (w2 == 0x0430 && w3 == 0x10ff)

-- An answer to a read/write frame, of four words at least, that presses a key.
unfoldable pub carries : List ℕ → Bool
unfolding holds_key
carries out =
    get_or out 1 0 == 0x17 && (leb 8 (get_or out 2 0) && holds_key (rd16 out 7) (rd16 out 9))

-- Silence presses nothing.
pub carries-silence : carries [] ≡ false
unfolding carries
carries-silence = refl

pub carries-empty : (out : List ℕ) → (length out == 0) ≡ true → carries out ≡ false
carries-empty [] silent = carries-silence
carries-empty (b ∷ bs) silent = absurd (ground (arith, silent))

pub carries_code : (out : List ℕ) → (get_or out 1 0 == 0x17) ≡ false → carries out ≡ false
unfolding carries
carries_code out other = rw other refl

-- An answer with its checksum.
abbrev pub answer : ℕ → ℕ → List ℕ → List ℕ
answer address n regs = address ∷ 0x17 ∷ u8 (n * 2) ∷ resp_bytes n regs

sealed :
    (address n : ℕ) (regs : List ℕ)
    → n ≤ 8
    → carries (hcp2_finish (answer address n regs) hcp2_max_frame) ≡ true
    → (tail : List ℕ) × (carries (answer address n regs ++ tail) ≡ true)
sealed address n regs room key =
    let frame = answer address n regs in
    let small = length-resp_bytes n regs in
    let crc = hcp2_crc16 frame in
    (
      lo_byte crc ∷ hi_byte crc ∷ [],
      subst (λ (out : List ℕ). carries out ≡ true)
          (hcp2_finish_lem frame hcp2_max_frame (omega arith) (omega (arith, small, room))) key,
    )

-- An answer of fewer than four words presses nothing.
short_answer :
    (address n : ℕ) (regs tail : List ℕ) → n < 4 → carries (answer address n regs ++ tail) ≡ false
unfolding carries
short_answer address n regs tail short = ground arith

-- The words of a longer one.
long_answer :
    (address n r0 r1 r2 r3 : ℕ) (rest tail : List ℕ)
    → carries (answer address (suc (suc (suc (suc n)))) (r0 ∷ r1 ∷ r2 ∷ r3 ∷ rest) ++ tail) ≡ true
    → holds_key (u16 r2) (u16 r3) ≡ true
unfolding resp_bytes carries
long_answer address n r0 r1 r2 r3 rest tail key =
    let w2 : lo_byte (hi_byte r2) * 2 ^ 8 + lo_byte r2 ≡ u16 r2 = omega arith in
    let w3 : lo_byte (hi_byte r3) * 2 ^ 8 + lo_byte r3 ≡ u16 r3 = omega arith in
    ground (arith, key, ap₂ holds_key w2 w3)

four_words :
    (address n : ℕ) (regs tail : List ℕ)
    → 4 ≤ n
    → length regs ≡ 8
    → carries (answer address n regs ++ tail) ≡ true
    → holds_key (u16 (get_or regs 2 0)) (u16 (get_or regs 3 0)) ≡ true
four_words address (suc (suc (suc (suc n)))) (r0 ∷ r1 ∷ r2 ∷ r3 ∷ rest) tail room size key =
    long_answer address n r0 r1 r2 r3 rest tail key
four_words address zero regs tail room size key = absurd (omega (arith, room))
four_words address (suc zero) regs tail room size key = absurd (omega (arith, room))
four_words address (suc (suc zero)) regs tail room size key = absurd (omega (arith, room))
four_words address (suc (suc (suc zero))) regs tail room size key = absurd (omega (arith, room))
four_words address n [] tail room size key = absurd (omega (arith, size))
four_words address n (a ∷ []) tail room size key = absurd (omega (arith, size))
four_words address n (a ∷ b ∷ []) tail room size key = absurd (omega (arith, size))
four_words address n (a ∷ b ∷ d ∷ []) tail room size key = absurd (omega (arith, size))

-- A key on the wire stands in the two registers.
pub carries-registers :
    (address n : ℕ) (regs : List ℕ)
    → n ≤ 8
    → length regs ≡ 8
    → carries (hcp2_finish (answer address n regs) hcp2_max_frame) ≡ true
    → (4 ≤ n) × (holds_key (u16 (get_or regs 2 0)) (u16 (get_or regs 3 0)) ≡ true)
carries-registers address n regs room size key =
    let (tail, whole) = sealed address n regs room key in
    let long : 4 ≤ n = ground (arith, whole, short_answer address n regs tail) in
    (long, four_words address n regs tail long size whole)

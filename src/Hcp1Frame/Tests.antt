-- ===== src/Hcp1Frame/Tests.antt =====
-- Each theorem about the older bus's frames at a concrete one.
use esphome_hcpbridge.Base.{ℕ, ◌≡◌, refl, List, [], ◌∷◌, ◌++◌, none, some, arith}
use esphome_hcpbridge.Hcp1Frame.{hcp1_parse, hcp1_build, hcp1_crc8, crc8_from, crc8_bits, crc8_bit}
use esphome_hcpbridge.Hcp1Frame.RoundTrip.{hcp1_parse-build, hcp1_parse_corrupt, hcp1_build-parse}

abbrev built : List ℕ
built = 0x28 ∷ 0x32 ∷ 0x01 ∷ 0x80 ∷ 0xec ∷ []

hcp1_parse-build_example :
    hcp1_parse (hcp1_build 16 0x28 3 (0x01 ∷ 0x80 ∷ []))
    ≡ some (record { address = 0x28; counter = 3; payload = 0x01 ∷ 0x80 ∷ [] })
hcp1_parse-build_example =
    hcp1_parse-build 16 0x28 3 (0x01 ∷ 0x80 ∷ []) (ground arith) (ground arith)

hcp1_build-parse_example : hcp1_build 16 0x28 3 (0x01 ∷ 0x80 ∷ []) ≡ built
unfolding hcp1_parse hcp1_crc8 crc8_from crc8_bits crc8_bit
hcp1_build-parse_example =
    hcp1_build-parse built (record { address = 0x28; counter = 3; payload = 0x01 ∷ 0x80 ∷ [] })
      (ground arith) refl

hcp1_parse_corrupt_example :
    hcp1_parse (((0x28 ∷ []) ++ 0x33 ∷ 0x01 ∷ 0x80 ∷ []) ++ (0xec ∷ [])) ≡ none
unfolding hcp1_parse hcp1_crc8 crc8_from crc8_bits crc8_bit
hcp1_parse_corrupt_example =
    hcp1_parse_corrupt (0x28 ∷ []) (0x01 ∷ 0x80 ∷ []) 0x32 0x33 0xec
      (record { address = 0x28; counter = 3; payload = 0x01 ∷ 0x80 ∷ [] }) (ground arith)
      (ground arith) (ground arith) (ground arith) (λ h. ground arith) refl

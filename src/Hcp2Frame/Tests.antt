-- ===== src/Hcp2Frame/Tests.antt =====
-- Each theorem about the newer bus's frames at a concrete one.
use esphome_hcpbridge.Base.{ℕ, ◌≡◌, List, [], ◌∷◌, ◌++◌, arith, take}
use esphome_hcpbridge.Hcp2Frame.{
  hcp2_validate, hcp2_finish, hcp2_crc16, crc16_from, crc16_bits, crc16_bit,
}
use esphome_hcpbridge.Hcp2Frame.RoundTrip.{hcp2_validate-finish, hcp2_validate_corrupt}

abbrev body : List ℕ
body = 0x02 ∷ 0x17 ∷ 0x01 ∷ []

abbrev sealed : List ℕ
sealed = 0x02 ∷ 0x17 ∷ 0x01 ∷ 0x1e ∷ 0x30 ∷ []

hcp2_validate-finish_example :
    (hcp2_validate (hcp2_finish body 256) ≡ 3) × (take 3 (hcp2_finish body 256) ≡ body)
hcp2_validate-finish_example = hcp2_validate-finish body 256 (ground arith) (ground arith)

hcp2_validate_corrupt_example :
    hcp2_validate (((0x02 ∷ []) ++ 0x16 ∷ 0x01 ∷ []) ++ (0x1e ∷ 0x30 ∷ [])) ≡ 0
unfolding hcp2_validate hcp2_crc16 crc16_from crc16_bits crc16_bit
hcp2_validate_corrupt_example =
    hcp2_validate_corrupt (0x02 ∷ []) (0x01 ∷ []) 0x17 0x16 0x1e 0x30 (ground arith) (ground arith)
      (ground arith) (ground arith) (λ h. ground arith) (ground arith)

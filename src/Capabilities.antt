-- ===== src/Capabilities.antt =====
-- components/hcpbridge/hcp_capabilities.h, and the two sets of limits in hcp2_codec.h and
-- hcp1_codec.h.
use esphome_hcpbridge.Base.{ℕ, Bool, true, false}

pub record HcpCapabilities : Type 0 where
  pub lost_answer_repeats : ℕ
  pub unacted_repeats : ℕ
  pub has_identity : Bool
  pub has_pause : Bool
  pub has_position : Bool

abbrev pub hcp2_capabilities : HcpCapabilities
hcp2_capabilities = record {
  lost_answer_repeats = 3;
  unacted_repeats = 1;
  has_identity = true;
  has_pause = true;
  has_position = true;
}

abbrev pub hcp1_capabilities : HcpCapabilities
hcp1_capabilities = record {
  lost_answer_repeats = 0;
  unacted_repeats = 0;
  has_identity = false;
  has_pause = false;
  has_position = false;
}

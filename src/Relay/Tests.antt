-- ===== src/Relay/Tests.antt =====
-- A concrete broadcast on its way to Home Assistant.
use esphome_hcpbridge.Base.{ℕ, ◌≡◌, refl, arith, false, none, some, List, [], ◌∷◌}
use esphome_hcpbridge.Hcp2Frame.{hcp2_validate, hcp2_crc16, crc16_from, crc16_bits, crc16_bit}
use esphome_hcpbridge.Hcp2.Codec.{Hcp2Codec, initial_codec}
use esphome_hcpbridge.Hcp2.Frame.{on_frame, on_valid_frame, on_broadcast, notice_frame}
use esphome_hcpbridge.Hcp2.Poll.{on_request_hook, answer_other, mark_registered}
use esphome_hcpbridge.Hcp2.Broadcast.{
  write_bcasts, write_bcast, on_door_position_changed, on_current_state_changed,
  on_reg_seven_changed, check_goto_target,
}
use esphome_hcpbridge.Component.Update.{is_silent}
use esphome_hcpbridge.Hcp2.Board.Words.{IsBroadcast}
use esphome_hcpbridge.Ring.{empty_ring}
use esphome_hcpbridge.State.{
  set_target_position, set_current_position, set_link, same_link, set_valid,
}
use esphome_hcpbridge.HcpBus.{hcp2_bus}
use esphome_hcpbridge.Component.{Updated, update}
use esphome_hcpbridge.Entities.Cover.{HcpBridgeCover, operation_idle}
use esphome_hcpbridge.Relay.{Home, relay, begins, told_position}
use esphome_hcpbridge.Relay.Told.{broadcast-tells}

-- A door at a quarter of the way.
abbrev quarter : List ℕ
quarter =
    0 ∷ 0x10 ∷ 0x9d ∷ 0x31 ∷ 0 ∷ 7 ∷ 0xe ∷ 0 ∷ 0 ∷ 0x64 ∷ 0x32 ∷ 0 ∷ 0x10 ∷ 0 ∷ 0 ∷ 0 ∷ 0 ∷ 0 ∷ 0
    ∷ 0 ∷ 0 ∷ 0xc0 ∷ 0xca ∷ []

quarter-IsBroadcast : IsBroadcast quarter
unfolding hcp2_validate hcp2_crc16 crc16_from crc16_bits crc16_bit
quarter-IsBroadcast = record {
  bytes = ground arith;
  whole = refl;
  writes = refl;
  here = refl;
  fits = refl;
  enough = ground arith;
}

abbrev new_cover : HcpBridgeCover
new_cover = record {
  position = 200;
  current_operation = operation_idle;
  warning = false;
  published = false;
  previous_position = 0;
  previous_operation = operation_idle;
}

abbrev begun : Home
begun = record { codec = initial_codec; cover = new_cover; known = none }

abbrev quarter_codec : Hcp2Codec
quarter_codec = (on_frame initial_codec 7 quarter).0

quarter_heard : is_silent quarter_codec 500 ≡ false
unfolding on_frame hcp2_validate hcp2_crc16 crc16_from crc16_bits crc16_bit on_valid_frame
    on_broadcast notice_frame on_request_hook answer_other mark_registered write_bcasts write_bcast
    on_door_position_changed on_current_state_changed on_reg_seven_changed check_goto_target
    initial_codec set_target_position empty_ring set_current_position set_link same_link set_valid
quarter_heard = refl

broadcast-tells_example :
    (u : Updated Hcp2Codec) × (update hcp2_bus quarter_codec 500 ≡ some u)
    × (told_position (relay (record begun { codec = quarter_codec }) u).known ≡ some 0x32)
broadcast-tells_example =
    broadcast-tells 7 500 quarter (begins new_cover none refl) quarter-IsBroadcast quarter_heard

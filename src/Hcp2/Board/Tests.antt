-- ===== src/Hcp2/Board/Tests.antt =====
-- A concrete broadcast, and each theorem about the state block applied to it.
use esphome_hcpbridge.Base.{
  ℕ, ◌≡◌, refl, arith, true, ◌==◌, if◌then◌else◌, List, [], ◌∷◌, some, get_or,
}
use esphome_hcpbridge.State.{closed, stopped, venting}
use esphome_hcpbridge.Hcp2Frame.{hcp2_validate, hcp2_crc16, crc16_from, crc16_bits, crc16_bit}
use esphome_hcpbridge.Hcp2.Codec.{initial_codec, rd16}
use esphome_hcpbridge.Hcp2.Broadcast.{decode_state}
use esphome_hcpbridge.Hcp2.Frame.{on_frame}
use esphome_hcpbridge.Hcp2.Runs.{opens, frame, run}
use esphome_hcpbridge.Hcp2.Board.Words.{IsBroadcast, IsShown, on_frame-IsShown}
use esphome_hcpbridge.Hcp2.Board.Boot.{boot_shows_closed}

-- A door that stands at a quarter of the way, under a lamp that is on.
abbrev standing : List ℕ
standing =
    0 ∷ 0x10 ∷ 0x9d ∷ 0x31 ∷ 0 ∷ 9 ∷ 0x12 ∷ 0 ∷ 0 ∷ 0x64 ∷ 0x32 ∷ 0 ∷ 0x10 ∷ 0 ∷ 0 ∷ 0 ∷ 0 ∷ 0 ∷ 0
    ∷ 0 ∷ 0x14 ∷ 0 ∷ 0 ∷ 0 ∷ 0 ∷ 0x92 ∷ 0x80 ∷ []

standing-IsBroadcast : IsBroadcast standing
unfolding hcp2_validate hcp2_crc16 crc16_from crc16_bits crc16_bit
standing-IsBroadcast = record {
  bytes = ground arith;
  whole = refl;
  writes = refl;
  here = refl;
  fits = refl;
  enough = ground arith;
}

on_frame-IsShown_example :
    IsShown standing
      (on_frame (run initial_codec (opens 5 ∷ frame 7 standing ∷ [])).after 90 standing).0.state
on_frame-IsShown_example =
    on_frame-IsShown (opens 5 ∷ frame 7 standing ∷ []) 90 standing standing-IsBroadcast

boot_shows_closed_example :
    let s = (on_frame initial_codec 7 standing).0.state in
    (s.valid ≡ true)
    × (s.door ≡ closed)
    × (s.current_position ≡ get_or standing 10 0)
    × (decode_state (rd16 standing 11)
        ≡ some (if get_or standing 12 0 == 0x61 then venting else stopped))
boot_shows_closed_example = boot_shows_closed 7 standing standing-IsBroadcast refl

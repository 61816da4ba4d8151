-- ===== src/Hcp1Serial/Tests.antt =====
-- Two frames in three chunks, before a handler that counts and answers the first byte.
use esphome_hcpbridge.Base.{ℕ, ◌+◌, ◌≡◌, arith, List, [], ◌∷◌, get_or}
use esphome_hcpbridge.Hcp1Serial.{Handler}
use esphome_hcpbridge.Hcp1Serial.Stream.{
  serve, deliver, IsFrame, stream_wires, ready, finished, serve-deliver,
}

abbrev counting : Handler ℕ
counting n frame = (n + 1, get_or frame 0 0 ∷ [])

abbrev two_frames : List (List (List ℕ))
two_frames = ((1 ∷ 2 ∷ []) ∷ (3 ∷ []) ∷ []) ∷ ((4 ∷ []) ∷ []) ∷ []

serve-deliver_example :
    serve counting (stream_wires two_frames) (ready 0 []) 5
    ≡ finished counting 0 (deliver counting two_frames 5)
unfolding IsFrame
serve-deliver_example =
    serve-deliver counting 0 two_frames 5
      ((ground arith, (ground arith, ground arith)), ((ground arith, ground arith), tt))

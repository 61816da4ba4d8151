-- ===== src/Hcp1Serial/Stream.antt =====
-- The port of the older bus as a stream of frames: however the driver cuts the bytes between two
-- breaks, the handler gets each frame once and whole, and its answers go out in order.
use esphome_hcpbridge.Base.{
  ℕ, ◌+◌, ◌-◌, ◌≤◌, ◌<◌, ◌≡◌, refl, sym, ◌∙◌, ap, subst, true, ltb, ◌==◌, arith, if◌then◌else◌,
  some, List, [], ◌∷◌, ◌++◌, append_assoc, append-nil, length, length-append, take, take-length,
  All, Bool-cases, inl, inr,
}
use esphome_hcpbridge.Uart.{uart_data, uart_break, Wire}
use esphome_hcpbridge.Hcp1Serial.{
  Hcp1SerialServer, Transmission, send, gather, Polled, Handler, quiet, end_frame, on_event, poll,
}

-- The driver announces a chunk, and gives it out; and it announces a break.
abbrev pub data_wire : List ℕ → Wire
data_wire chunk = record {
  event = some (record { type = uart_data; size = length chunk });
  read = λ i n. take n chunk;
}

abbrev pub break_wire : Wire
break_wire = record { event = some (record { type = uart_break; size = 0 }); read = λ i n. [] }

abbrev pub ready : ℕ → List ℕ → Hcp1SerialServer
ready warned bytes = record { queue = true; rx_buf = bytes; warn_seen = warned }

pub flatten : List (List ℕ) → List ℕ
flatten [] = []
flatten (chunk ∷ chunks) = chunk ++ flatten chunks

-- A frame as the chunks that it arrives in.
pub frame_wires : List (List ℕ) → List Wire
frame_wires [] = break_wire ∷ []
frame_wires (chunk ∷ chunks) = data_wire chunk ∷ frame_wires chunks

pub stream_wires : List (List (List ℕ)) → List Wire
unfolding frame_wires
stream_wires [] = []
stream_wires (frame ∷ frames) = frame_wires frame ++ stream_wires frames

-- Chunks that are not empty, and fit the buffer together with `n` bytes.
unfoldable pub IsFrame : ℕ → List (List ℕ) → Type 0
IsFrame n [] = n ≤ 16
IsFrame n (chunk ∷ chunks) = (0 < length chunk) × IsFrame (n + length chunk) chunks

IsFrame-le : (n : ℕ) (chunks : List (List ℕ)) → IsFrame n chunks → n ≤ 16
unfolding IsFrame
IsFrame-le n [] fits = fits
IsFrame-le n (chunk ∷ chunks) fits = omega (arith, IsFrame-le (n + length chunk) chunks fits.1)

module _ {ℓ} {H : Type ℓ} (handle : Handler H) where
  -- Turn after turn of the port.
  pub serve : List Wire → Hcp1SerialServer → H → Polled H
  serve [] s h = quiet s h
  serve (w ∷ ws) s h =
      let first = poll (some handle) s h w in
      let rest = serve ws first.server first.handler in
      record { server = rest.server; handler = rest.handler; sent = first.sent ++ rest.sent }

  -- What the stream promises: each frame that has bytes is handled, and its answer sent.
  pub deliver : List (List (List ℕ)) → H → H × List Transmission
  deliver [] h = (h, [])
  deliver (frame ∷ frames) h =
      let r = handle h (flatten frame) in
      let rest = deliver frames r.0 in
      if length (flatten frame) == 0
      then deliver frames h
      else (rest.0, (if ltb 0 (length r.1) then send r.1 else []) ++ rest.1)

  poll_data :
      (warned : ℕ) (bytes chunk : List ℕ) (h : H)
      → 0 < length chunk
      → length bytes + length chunk ≤ 16
      → poll (some handle) (ready warned bytes) h (data_wire chunk)
        ≡ quiet (ready warned (bytes ++ chunk)) h
  unfolding poll on_event gather
  poll_data warned bytes chunk h some_bytes room =
      ground (arith, take-length chunk (length chunk) refl, take-length chunk (16 - length bytes))

  serve_data :
      (warned : ℕ) (bytes chunk : List ℕ) (rest : List Wire) (h : H)
      → 0 < length chunk
      → length bytes + length chunk ≤ 16
      → serve (data_wire chunk ∷ rest) (ready warned bytes) h
        ≡ serve rest (ready warned (bytes ++ chunk)) h
  unfolding serve
  serve_data warned bytes chunk rest h some_bytes room =
      rw (poll_data warned bytes chunk h some_bytes room) refl

  -- The chunks of a frame leave it whole for the break.
  serve_chunks :
      (warned : ℕ) (chunks : List (List ℕ)) (bytes : List ℕ) (rest : List Wire) (h : H)
      → IsFrame (length bytes) chunks
      → serve (frame_wires chunks ++ rest) (ready warned bytes) h
        ≡ serve (break_wire ∷ rest) (ready warned (bytes ++ flatten chunks)) h
  unfolding frame_wires flatten IsFrame
  serve_chunks warned [] bytes rest h fits =
      ap (λ (b : List ℕ). serve (break_wire ∷ rest) (ready warned b) h) (sym (append-nil bytes))
  serve_chunks warned (chunk ∷ chunks) bytes rest h fits =
      let len = length-append bytes chunk in
      serve_data warned bytes chunk (frame_wires chunks ++ rest) h fits.0
        (IsFrame-le (length bytes + length chunk) chunks fits.1)
      ∙ serve_chunks warned chunks (bytes ++ chunk) rest h
          (subst (λ (n : ℕ). IsFrame n chunks) (sym len) fits.1)
      ∙ ap (λ (b : List ℕ). serve (break_wire ∷ rest) (ready warned b) h)
          (append_assoc bytes chunk (flatten chunks))

  -- The outcome of a turn, put before what follows.
  abbrev after : H × List Transmission → List Wire → ℕ → Polled H
  after r ws warned =
      let rest = serve ws (ready warned []) r.0 in
      record { server = rest.server; handler = rest.handler; sent = r.1 ++ rest.sent }

  serve_break :
      (warned : ℕ) (bytes : List ℕ) (rest : List Wire) (h : H)
      → serve (break_wire ∷ rest) (ready warned bytes) h ≡ (
          if length bytes == 0
          then serve rest (ready warned []) h
          else after
              (
                (handle h bytes).0,
                if ltb 0 (length (handle h bytes).1) then send (handle h bytes).1 else [],
              )
              rest
              warned)
  unfolding serve poll on_event end_frame
  serve_break warned bytes rest h = ground arith

  -- What the port gives once its stream has been served.
  abbrev pub finished : ℕ → H × List Transmission → Polled H
  finished warned r = record { server = ready warned []; handler = r.0; sent = r.1 }

  -- On the port of the older bus, with any handler, whose buffer starts empty: a stream of
  -- frames, each cut by the driver into chunks that are not empty and fit 16 bytes together,
  -- followed by a break, leaves the port as it was, the handler as if it had been given each
  -- frame with bytes once and whole, and sends the answers in that order.
  pub serve-deliver :
      (warned : ℕ) (frames : List (List (List ℕ))) (h : H)
      → All (IsFrame 0) frames
      → serve (stream_wires frames) (ready warned []) h ≡ finished warned (deliver frames h)
  unfolding stream_wires serve deliver
  serve-deliver warned [] h fits = refl
  serve-deliver warned (frame ∷ frames) h fits =
      let bytes = flatten frame in
      let r = handle h bytes in
      serve_chunks warned frame [] (stream_wires frames) h fits.0
      ∙ serve_break warned bytes (stream_wires frames) h
      ∙ elim (Bool-cases (length bytes == 0)) [
        | inl bare ↦ rw (bare) (serve-deliver warned frames h fits.1)
        | inr whole ↦ rw (whole, serve-deliver warned frames r.0 fits.1) refl
      ]

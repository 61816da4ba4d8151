-- ===== src/ModbusRtu/Turns.antt =====
-- A turn of the port, for any handler: what reaches it and what is written.
use esphome_hcpbridge.Base.{
  ℕ, ◌≤◌, ◌≡◌, refl, sym, ◌⊎◌, inl, inr, Bool-cases, true, false, not, ◌&&◌, ltb, ◌==◌, min, arith,
  if◌then◌else◌, some, Option-cases, List, [], get_or, length, subst,
}
use esphome_hcpbridge.Uart.{
  UartEventType, uart_data, uart_break, uart_fifo_ovf, uart_buffer_full, uart_other, Wire,
  IsBounded,
}
use esphome_hcpbridge.ModbusRtu.{
  ModbusRtuServer, Handler, Polled, quiet, collect, answer, receive, on_event, poll,
}
use esphome_hcpbridge.ModbusRtu.Collect.{collect-Collects}

module _ {ℓ} {H : Type ℓ} (handle : Handler H) (s : ModbusRtuServer) (h : H) where
  -- Nothing reached the handler and nothing was written.
  pub record IsIdle (r : Polled H) : Type ℓ where
    pub handler : r.handler ≡ h
    pub written : r.written ≡ []

  -- One frame did, and its answer was written if the frame was to us alone.
  pub record IsServed (r : Polled H) : Type ℓ where
    pub frame : List ℕ
    pub long : 4 ≤ length frame
    pub fits : length frame ≤ 256
    pub address : (get_or frame 0 0 ≡ 0) ⊎ (get_or frame 0 0 ≡ s.slave_id)
    pub handler : r.handler ≡ (handle h frame).0
    pub written : r.written ≡ (if get_or frame 0 0 == 0 then [] else (handle h frame).1)

  answer-IsServed :
      (buf : List ℕ)
      → 4 ≤ length buf
      → length buf ≤ 256
      → IsIdle (answer (some handle) s h buf) ⊎ IsServed (answer (some handle) s h buf)
  unfolding answer
  answer-IsServed buf long fits =
      elim (Bool-cases (not (get_or buf 0 0 == 0) && not (get_or buf 0 0 == s.slave_id))) [
        | inl other ↦
            inl (record { handler = ground (arith, other); written = ground (arith, other) })
        | inr ours ↦ inr (record {
          frame = buf;
          long = long;
          fits = fits;
          address = ground (arith, ours);
          handler = ground (arith, ours);
          written = ground (arith, ours);
        })
      ]

  -- A turn is idle or serves a frame.
  abbrev pub IsTurn : Polled H → Type ℓ
  IsTurn r = IsIdle r ⊎ IsServed r

  receive_short :
      (w : Wire) (size : ℕ)
      → ltb (length (w.read 0 (min size 256))) 4 ≡ true
      → receive (some handle) s h w size ≡ quiet s h
  unfolding receive
  receive_short w size short = ground (arith, short)

  receive_long :
      (w : Wire) (size : ℕ) (buf : List ℕ)
      → ltb (length (w.read 0 (min size 256))) 4 ≡ false
      → collect w.read 257 1 (w.read 0 (min size 256)) ≡ some buf
      → ltb (length buf) 4 ≡ false
      → receive (some handle) s h w size ≡ answer (some handle) s h buf
  unfolding receive
  receive_long w size buf long e longer = rw (long, receive, e, longer) refl

  receive-IsTurn : (w : Wire) (size : ℕ) → IsBounded w → IsTurn (receive (some handle) s h w size)
  receive-IsTurn w size bounded =
      let first = w.read 0 (min size 256) in
      elim (Bool-cases (ltb (length first) 4)) [
        | inl short ↦
            subst (λ (r : Polled H). IsTurn r) (sym (receive_short w size short))
              (inl (record { handler = refl; written = refl }))
        | inr long ↦
            let c =
              collect-Collects w.read bounded 257 1 first (omega (arith, bounded 0 (min size 256)))
                (omega arith) in
            subst (λ (r : Polled H). IsTurn r)
              (sym (receive_long w size c.out long c.returns (ground (arith, long, c.longer))))
              (answer-IsServed c.out (ground (arith, long, c.longer)) c.fits)
      ]

  on_event-IsTurn :
      (w : Wire) (type : UartEventType) (size : ℕ)
      → IsBounded w
      → IsTurn (on_event (some handle) s h w type size)
  unfolding on_event
  on_event-IsTurn w uart_data size bounded = receive-IsTurn w size bounded
  on_event-IsTurn w uart_break size bounded = inl (record { handler = refl; written = refl })
  on_event-IsTurn w uart_fifo_ovf size bounded = inl (record { handler = refl; written = refl })
  on_event-IsTurn w uart_buffer_full size bounded = inl (record { handler = refl; written = refl })
  on_event-IsTurn w uart_other size bounded = inl (record { handler = refl; written = refl })

  poll_on :
      (w : Wire)
      → (poll (some handle) s h w ≡ quiet s h)
        ⊎ (type : UartEventType) × (size : ℕ) × (poll (some handle) s h w
            ≡ on_event (some handle) s h w type size)
  unfolding poll
  poll_on w = elim (Bool-cases s.queue) [
    | inr shut ↦ inl (ground (arith, shut))
    | inl ready ↦ elim (Option-cases w.event) [
      | inl timeout ↦ inl (ground (arith, ready, timeout))
      | inr (e, came) ↦ inr (e.type, e.size, ground (arith, ready, came))
    ]
  ]

  -- A turn over a bounded driver either leaves the handler alone and writes nothing, or serves it one
  -- frame.
  pub poll-IsTurn : (w : Wire) → IsBounded w → IsTurn (poll (some handle) s h w)
  poll-IsTurn w bounded = elim (poll_on w) [
    | inl same ↦
        subst (λ (r : Polled H). IsTurn r) (sym same)
          (inl (record { handler = refl; written = refl }))
    | inr (type, size, same) ↦
        subst (λ (r : Polled H). IsTurn r) (sym same) (on_event-IsTurn w type size bounded)
  ]

-- ===== src/Hcp1Serial.antt =====
-- components/hcpbridge/hcp1_serial.h and hcp1_serial.cpp: the port of the older bus, where a break
-- ends a frame. The driver's return codes, events and reads are arguments.
mod Tests
pub mod Stream
use esphome_hcpbridge.Base.{
  ℕ, zero, suc, ◌+◌, ◌-◌, ◌%◌, Bool, true, false, not, ◌&&◌, ltb, ◌==◌, if◌then◌else◌, Option, none,
  some, List, [], ◌∷◌, ◌++◌, length, u32,
}
use esphome_hcpbridge.Hcp1Frame.{hcp1_max_frame}
use esphome_hcpbridge.Uart.{
  UartEventType, uart_data, uart_break, uart_fifo_ovf, uart_buffer_full, uart_other, UartEvent,
  Wire,
}

abbrev pub hcp1_warn_every : ℕ
hcp1_warn_every = 256

-- `rx_buf` holds the `rx_len` bytes collected so far.
pub record Hcp1SerialServer : Type 0 where
  pub queue : Bool
  pub rx_buf : List ℕ
  pub warn_seen : ℕ

abbrev pub initial_server : Hcp1SerialServer
initial_server = record { queue = false; rx_buf = []; warn_seen = 0 }

unfoldable pub warn_due : Hcp1SerialServer → Hcp1SerialServer × Bool
warn_due s = (record s { warn_seen = u32 (s.warn_seen + 1) }, s.warn_seen % hcp1_warn_every == 0)

-- Which of the driver's calls return ESP_OK.
pub record SerialDriver : Type 0 where
  pub param_config : Bool
  pub set_pin : Bool
  pub driver_install : Bool

unfoldable pub begin : SerialDriver → Hcp1SerialServer → Hcp1SerialServer × Bool
begin d s =
    if not d.param_config
    then (s, false)
    else (if not d.set_pin
        then (s, false)
        else (if not d.driver_install then (s, false) else (record s { queue = true }, true)))

-- What goes out: bytes with a break of so many bits behind them, or bytes alone.
pub data Transmission : Type 0 where
  with_break : List ℕ → ℕ → Transmission
  plain : List ℕ → Transmission

abbrev pub hcp1_break_bits : ℕ
hcp1_break_bits = 20

abbrev pub hcp1_break_carrier : ℕ
hcp1_break_carrier = 0x00

-- The break goes first, carried by a byte of its own.
unfoldable pub send : List ℕ → List Transmission
send bytes = with_break (hcp1_break_carrier ∷ []) hcp1_break_bits ∷ plain bytes ∷ []

-- Bytes that arrived: a full buffer starts again.
unfoldable pub gather : Hcp1SerialServer → Wire → ℕ → Hcp1SerialServer
gather s w size =
    let kept = if hcp1_max_frame - length s.rx_buf == 0 then [] else s.rx_buf in
    let room = hcp1_max_frame - length kept in
    record s { rx_buf = kept ++ w.read 0 (if ltb size room then size else room) }

-- A turn of the port: the server, the handler's own state, and what was sent.
pub record Polled {ℓ} (H : Type ℓ) : Type ℓ where
  pub server : Hcp1SerialServer
  pub handler : H
  pub sent : List Transmission

abbrev pub Handler {ℓ} : Type ℓ → Type ℓ
Handler H = H → List ℕ → H × List ℕ

module _ {ℓ} {H : Type ℓ} where
  abbrev pub quiet : Hcp1SerialServer → H → Polled H
  quiet s h = record { server = s; handler = h; sent = [] }

  -- A break: what was collected before it is a frame.
  unfoldable pub end_frame : Option (Handler H) → Hcp1SerialServer → H → Polled H
  end_frame none s h = quiet (record s { rx_buf = [] }) h
  end_frame (some handle) s h =
      let r = handle h s.rx_buf in
      let emptied = record s { rx_buf = [] } in
      if ltb 0 (length s.rx_buf)
      then record {
        server = emptied;
        handler = r.0;
        sent = if ltb 0 (length r.1) then send r.1 else [];
      }
      else quiet emptied h

  -- By the type of the event.
  unfoldable pub on_event :
      Option (Handler H) → Hcp1SerialServer → H → Wire → UartEventType → ℕ → Polled H
  on_event handle s h w uart_break size = end_frame handle s h
  on_event handle s h w uart_data size = quiet (gather s w size) h
  on_event handle s h w _ size = quiet (record ((warn_due s).0) { rx_buf = [] }) h

  unfoldable pub poll : Option (Handler H) → Hcp1SerialServer → H → Wire → Polled H
  poll handle s h w =
      if not s.queue
      then quiet s h
      else elim w.event [ none ↦ quiet s h | some e ↦ on_event handle s h w e.type e.size ]

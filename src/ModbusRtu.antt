-- ===== src/ModbusRtu.antt =====
-- components/hcpbridge/modbus_rtu.h and modbus_rtu.cpp: the port of the newer bus. The driver's
-- return codes, events and reads are arguments; what is logged is left out, the throttle of the
-- log is not.
mod Tests
pub mod Idle
pub mod Collect
pub mod Turns
use esphome_hcpbridge.Base.{
  ℕ, zero, suc, ◌+◌, ◌-◌, ◌*◌, ◌/◌, ◌%◌, min, Bool, true, false, not, ◌&&◌, ◌||◌, ltb, leb, ◌==◌,
  if◌then◌else◌, Option, none, some, List, [], ◌∷◌, ◌++◌, length, get_or, u32, ℤ, at_least,
}
use esphome_hcpbridge.Hcp2Frame.{hcp2_max_frame}
use esphome_hcpbridge.Uart.{
  UartEventType, uart_data, uart_fifo_ovf, uart_buffer_full, UartEvent, Wire,
}

abbrev pub rx_full_threshold : ℕ
rx_full_threshold = 120

abbrev pub rtu_warn_every : ℕ
rtu_warn_every = 256

-- `rxIdleSymbols`, for a baud rate that is not zero.
unfoldable pub rx_idle_symbols : ℕ → ℕ
rx_idle_symbols baud =
    let symbol_us = 11 * 1000000 / baud in
    let symbols = (1750 + symbol_us - 1) / symbol_us in
    if symbol_us == 0
    then 92
    else (if ltb symbols 4 then 4 else (if ltb 92 symbols then 92 else symbols))

-- `queue` tells whether the driver has given us its event queue.
pub record ModbusRtuServer : Type 0 where
  pub queue : Bool
  pub slave_id : ℕ
  pub tx_wait_ms : ℕ
  pub warn_seen : ℕ

abbrev pub initial_server : ModbusRtuServer
initial_server = record { queue = false; slave_id = 2; tx_wait_ms = 50; warn_seen = 0 }

unfoldable pub warn_due : ModbusRtuServer → ModbusRtuServer × Bool
warn_due s = (record s { warn_seen = u32 (s.warn_seen + 1) }, s.warn_seen % rtu_warn_every == 0)

-- Which of the driver's calls return ESP_OK.
pub record RtuDriver : Type 0 where
  pub param_config : Bool
  pub set_pin : Bool
  pub driver_install : Bool
  pub set_mode : Bool
  pub set_rx_timeout : ℕ → Bool
  pub set_rx_full_threshold : ℕ → Bool

unfoldable pub begin : RtuDriver → ModbusRtuServer → ℤ → ℕ → ℕ → ModbusRtuServer × Bool
begin d s rts_pin baud slave_id =
    let named = record s { slave_id = slave_id } in
    let installed = record named { queue = true } in
    let done = record installed {
      tx_wait_ms = u32 (2 * (hcp2_max_frame * 11 * 1000 / baud) + 5);
    } in
    if not d.param_config
    then (named, false)
    else (if not d.set_pin
        then (named, false)
        else (if not d.driver_install
            then (named, false)
            else (if at_least rts_pin 0 && not d.set_mode
                then (installed, false)
                else (if not (d.set_rx_timeout (rx_idle_symbols baud))
                    then (installed, false)
                    else (if not (d.set_rx_full_threshold rx_full_threshold)
                        then (installed, false)
                        else (done, true))))))

-- The loop that waits for the rest of a long frame; `none` is a loop that is still turning.
pub collect : (ℕ → ℕ → List ℕ) → ℕ → ℕ → List ℕ → Option (List ℕ)
collect read zero i buf = none
collect read (suc fuel) i buf =
    let more = read i (hcp2_max_frame - length buf) in
    let rest = collect read fuel (i + 1) (buf ++ more) in
    if leb rx_full_threshold (length buf) && ltb (length buf) hcp2_max_frame
    then (if length more == 0 then some buf else rest)
    else some buf

-- A turn of the port: the server, the handler's own state, and the bytes that were written (none
-- where nothing was).
pub record Polled {ℓ} (H : Type ℓ) : Type ℓ where
  pub server : ModbusRtuServer
  pub handler : H
  pub written : List ℕ
  pub flushed : Bool

abbrev pub Handler {ℓ} : Type ℓ → Type ℓ
Handler H = H → List ℕ → H × List ℕ

module _ {ℓ} {H : Type ℓ} where
  abbrev pub quiet : ModbusRtuServer → H → Polled H
  quiet s h = record { server = s; handler = h; written = []; flushed = false }

  -- An overflow or a line error: everything that was received goes.
  abbrev pub flush : ModbusRtuServer → H → Polled H
  flush s h = record { server = (warn_due s).0; handler = h; written = []; flushed = true }

  -- A whole frame: only one to us or to everybody reaches the handler, and only the first kind is
  -- answered.
  unfoldable pub answer : Option (Handler H) → ModbusRtuServer → H → List ℕ → Polled H
  answer none s h buf = quiet s h
  answer (some handle) s h buf =
      let addr = get_or buf 0 0 in
      let broadcast = addr == 0 in
      let r = handle h buf in
      if not broadcast && not (addr == s.slave_id) then quiet s h else record {
        server = s;
        handler = r.0;
        written = if length r.1 == 0 || broadcast then [] else r.1;
        flushed = false;
      }

  -- What a data event brings: its first read, and the rest if the frame is a long one.
  unfoldable pub receive : Option (Handler H) → ModbusRtuServer → H → Wire → ℕ → Polled H
  receive handle s h w size =
      let first = w.read 0 (min size hcp2_max_frame) in
      if ltb (length first) 4
      then quiet s h
      else elim (collect w.read (hcp2_max_frame + 1) 1 first) [
        | none ↦ quiet s h
        | some buf ↦ if ltb (length buf) 4 then quiet s h else answer handle s h buf
      ]

  -- By the type of the event.
  unfoldable pub on_event :
      Option (Handler H) → ModbusRtuServer → H → Wire → UartEventType → ℕ → Polled H
  on_event handle s h w uart_data size = receive handle s h w size
  on_event handle s h w _ size = flush s h

  unfoldable pub poll : Option (Handler H) → ModbusRtuServer → H → Wire → Polled H
  poll handle s h w =
      if not s.queue
      then quiet s h
      else elim w.event [ none ↦ quiet s h | some e ↦ on_event handle s h w e.type e.size ]

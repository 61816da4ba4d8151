-- ===== src/Uart.antt =====
-- What the serial ports are told by the UART driver: the events of its queue, and the bytes that
-- its reads return. The driver is not part of the repository; an event type that the code does not
-- name is `uart_other`.
use esphome_hcpbridge.Base.{ℕ, ◌≤◌, Option, List, length}

pub data UartEventType : Type 0 where
  uart_data uart_break uart_fifo_ovf uart_buffer_full uart_other : UartEventType

pub record UartEvent : Type 0 where
  pub type : UartEventType
  pub size : ℕ

-- One turn of a port: the event that `xQueueReceive` returned, none on a timeout, and the bytes
-- that the i-th `uart_read_bytes` of the turn returned when it was asked for n. A read that fails
-- returns none.
pub record Wire : Type 0 where
  pub event : Option UartEvent
  pub read : ℕ → ℕ → List ℕ

-- The driver's contract: a read returns no more than it was asked for.
abbrev pub IsBounded : Wire → Type 0
IsBounded w = (i n : ℕ) → length (w.read i n) ≤ n

-- ===== src/Hcp1Transport.antt =====
-- components/hcpbridge/hcp1_transport.h and hcp1_transport.cpp: the port and the codec of the older
-- bus.
use esphome_hcpbridge.Base.{ℕ, Bool, true, false, not, if◌then◌else◌, some, none, Option, List}
use esphome_hcpbridge.Hcp1.{Hcp1Codec, initial_codec, on_frame}
use esphome_hcpbridge.Uart.{Wire}
use esphome_hcpbridge.Hcp1Serial.{
  Hcp1SerialServer, initial_server, SerialDriver, begin, Handler, Polled, Transmission, poll,
}
use esphome_hcpbridge.BusTask.{SettleClock, SettleEnd, settle_until_quiet, start_bus_task}

abbrev pub hcp1_baud : ℕ
hcp1_baud = 19200

pub record Hcp1Transport : Type 0 where
  pub codec : Hcp1Codec
  pub serial : Hcp1SerialServer
  pub handler : Bool  -- set by `begin`

unfoldable pub initial_transport : Hcp1Transport
initial_transport = record { codec = initial_codec; serial = initial_server; handler = false }

-- `begin`: the handler, the port, the task.
unfoldable pub begin_transport : SerialDriver → Hcp1Transport → Bool → Bool → Hcp1Transport × Bool
begin_transport d t created handle =
    let port = begin d t.serial in
    (
      record t { serial = port.0; handler = true },
      (if not port.1 then false else start_bus_task created handle),
    )

abbrev pub handle_frame : ℕ → Handler Hcp1Codec
handle_frame now codec frame = on_frame codec now frame

-- `serveOnce`: the transport after a turn of its port, and what was sent.
unfoldable pub serve_once : ℕ → Hcp1Transport → Wire → Hcp1Transport × List Transmission
serve_once now t w =
    let r : Polled Hcp1Codec =
      poll (if t.handler then some (handle_frame now) else none) t.serial t.codec w in
    (record t { codec = r.handler; serial = r.server }, r.sent)

-- There is nobody to tell on this bus.
abbrev pub announce_pause : ℕ → Hcp1Codec → Hcp1Codec × Bool
announce_pause timeout_ms c = (c, false)

abbrev pub quiesce : SettleClock → Option SettleEnd
quiesce w = settle_until_quiet w

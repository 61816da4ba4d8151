-- ===== src/Hcp2Transport.antt =====
-- components/hcpbridge/hcp2_transport.h and hcp2_transport.cpp: the port and the codec of the newer
-- bus, and the pause before a restart. What the bus task does while the loop task waits is an
-- argument: the frames that arrive.
mod Tests
pub mod Answers
pub mod Pause
use esphome_hcpbridge.Base.{
  ℕ, zero, suc, ◌+◌, Bool, true, false, not, ◌||◌, ltb, ◌==◌, if◌then◌else◌, Option, none, some,
  List, [], ◌∷◌, ℤ, sub32,
}
use esphome_hcpbridge.State.{bus_silence_ms}
use esphome_hcpbridge.Hcp2Frame.{slave_id}
use esphome_hcpbridge.Hcp2.Codec.{
  Hcp2Codec, initial_codec, request_pause, end_pause, drop_queued_command,
}
use esphome_hcpbridge.Hcp2.Frame.{on_frame}
use esphome_hcpbridge.Uart.{Wire}
use esphome_hcpbridge.ModbusRtu.{
  ModbusRtuServer, initial_server, RtuDriver, begin, Handler, Polled, poll,
}
use esphome_hcpbridge.BusTask.{SettleClock, SettleEnd, settle_until_quiet, start_bus_task}

abbrev pub hcp_baud : ℕ
hcp_baud = 57600

pub record Hcp2Transport : Type 0 where
  pub codec : Hcp2Codec
  pub mb : ModbusRtuServer
  pub handler : Bool  -- set by `begin`

unfoldable pub initial_transport : Hcp2Transport
initial_transport = record { codec = initial_codec; mb = initial_server; handler = false }

-- `begin`: the handler, the port, the task.
unfoldable pub begin_transport : RtuDriver → Hcp2Transport → ℤ → Bool → Bool → Hcp2Transport × Bool
begin_transport d t rts created handle =
    let port = begin d t.mb rts hcp_baud slave_id in
    (
      record t { mb = port.0; handler = true },
      (if not port.1 then false else start_bus_task created handle),
    )

-- What the handler does with a frame, at the clock it reads.
abbrev pub handle_frame : ℕ → Handler Hcp2Codec
handle_frame now codec req = on_frame codec now req

-- `serveOnce`: the transport after a turn of its port, and what was written.
unfoldable pub serve_once : ℕ → Hcp2Transport → Wire → Hcp2Transport × List ℕ
serve_once now t w =
    let r : Polled Hcp2Codec =
      poll (if t.handler then some (handle_frame now) else none) t.mb t.codec w in
    (record t { codec = r.handler; mb = r.server }, r.written)

-- A frame that the bus task serves, and when.
pub record Arrival : Type 0 where
  pub at_ms : ℕ
  pub raw : List ℕ

unfoldable pub serve_frames : List Arrival → Hcp2Codec → Hcp2Codec
serve_frames [] c = c
serve_frames (a ∷ later) c = serve_frames later (on_frame c a.at_ms a.raw).0

-- What `announcePause` reads, and the frames that arrive before its i-th look at the
-- acknowledgement and while it settles.
pub record PauseWorld : Type 0 where
  pub now : ℕ
  pub started : ℕ
  pub test : ℕ → ℕ
  pub arrivals : ℕ → List Arrival
  pub settle : SettleClock
  pub settling : List Arrival

-- The loop that waits for the acknowledgement; `none` is a loop that is still turning.
pub await_pause : PauseWorld → ℕ → ℕ → ℕ → Hcp2Codec → Option (Hcp2Codec × Bool)
await_pause w timeout_ms zero i c = none
await_pause w timeout_ms (suc fuel) i c =
    let served = serve_frames (w.arrivals i) c in
    let rest = await_pause w timeout_ms fuel (i + 1) served in
    if ltb (sub32 (w.test i) w.started) timeout_ms
    then (if served.pause_confirmed then some (served, true) else rest)
    else some (c, false)

-- Both ends of the loop settle, and then answer normally again.
pub finish_pause : PauseWorld → Hcp2Codec × Bool → Option (Hcp2Codec × Bool)
finish_pause w waited = elim (settle_until_quiet w.settle) [
  | none ↦ none
  | some end ↦ some (end_pause (serve_frames w.settling waited.0), waited.1)
]

unfoldable pub announce_pause : ℕ → PauseWorld → ℕ → Hcp2Codec → Option (Hcp2Codec × Bool)
unfolding await_pause finish_pause
announce_pause fuel w timeout_ms c =
    let asked = request_pause (drop_queued_command c) in
    if not c.caps.has_pause
      || c.last_frame_on == 0
      || ltb bus_silence_ms (sub32 w.now c.last_frame_on)
    then some (c, false)
    else elim (await_pause w timeout_ms fuel 0 asked) [
      | none ↦ none
      | some waited ↦ finish_pause w waited
    ]

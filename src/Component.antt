-- ===== src/Component.antt =====
-- components/hcpbridge/hcpbridge.h and hcpbridge.cpp, `HCPBridge`: one door. What it logs about the
-- bus is a list of lines, with the sentence and what fills its slots; its own notes are left out.
mod Tests
pub mod Log
pub mod Update
pub mod Shutdown
use esphome_hcpbridge.Base.{
  ℕ, zero, suc, Bool, true, false, not, ◌||◌, ◌==◌, if◌then◌else◌, Option, none, some, List, [],
  ◌∷◌, ◌++◌, length, ℤ, at_least,
}
use mathlib.Core.List.{map}
use Prim.Native.String.{String}
use esphome_hcpbridge.State.{
  HoermannCommand, nothing, go_open, go_close, impulse, half, vent, light_on, light_off, stop,
  command_name, clear_changed,
}
use esphome_hcpbridge.Events.{
  HcpEvent, HcpEventEntry, HcpArgKind, numbers, a_command, hcp_event_format, hcp_event_arg_kind,
  hcp_event_is_trouble,
}
use esphome_hcpbridge.Ring.{HcpEventRing, drain, take_dropped}
use esphome_hcpbridge.Capabilities.{HcpCapabilities, hcp1_capabilities, hcp2_capabilities}
use esphome_hcpbridge.HcpBus.{HcpBus}
use esphome_hcpbridge.ModbusRtu.{RtuDriver}
use esphome_hcpbridge.Hcp1Serial.{SerialDriver}
use esphome_hcpbridge.Hcp1Transport
use esphome_hcpbridge.Hcp2Transport
use esphome_hcpbridge.Hcp2Transport.{PauseWorld, Arrival, serve_frames}
use esphome_hcpbridge.BusTask.{SettleClock, settle_until_quiet}

-- The name that a command's number stands for; `commandName` takes any other as the first.
unfoldable pub name_of : ℕ → String
unfolding command_name
name_of n = command_name (
    if n == 1
    then go_open
    else (if n == 2
        then go_close
        else (if n == 3
            then impulse
            else (if n == 4
                then half
                else (if n == 5
                    then vent
                    else (if n == 6
                        then light_on
                        else (if n == 7
                            then light_off
                            else (if n == 8 then stop else nothing))))))))

-- A line of the log: a warning or a note, its sentence, and what it prints.
pub data LogLine : Type 0 where
  of_command : Bool → String → String → ℕ → LogLine
  of_numbers : Bool → String → ℕ → ℕ → LogLine
  of_lost : ℕ → LogLine

unfoldable pub log_event : HcpEventEntry → LogLine
unfolding name_of
log_event e = elim (hcp_event_arg_kind e.event) [
  | a_command ↦
      of_command (hcp_event_is_trouble e.event) (hcp_event_format e.event) (name_of e.a) e.b
  | numbers ↦ of_numbers (hcp_event_is_trouble e.event) (hcp_event_format e.event) e.a e.b
]

abbrev pub batch : ℕ
batch = 16

-- The loop over full batches; `none` is a loop that is still turning.
pub drain_batches : ℕ → HcpEventRing → Option (List LogLine × HcpEventRing)
drain_batches zero r = none
drain_batches (suc fuel) r =
    let taken = drain r batch in
    let lines = map log_event taken.0 in
    if length taken.0 == batch
    then elim (drain_batches fuel taken.1) [
      | none ↦ none
      | some rest ↦ some (lines ++ rest.0, rest.1)
    ]
    else some (lines, taken.1)

-- A ring of 32 entries is two full batches and one that is not.
unfoldable pub drain_events : HcpEventRing → Option (List LogLine × HcpEventRing)
unfolding drain_batches
drain_events r = elim (drain_batches 3 r) [
  | none ↦ none
  | some drained ↦
      let lost = take_dropped drained.1 in
      some (if lost.0 == 0 then drained.0 else drained.0 ++ of_lost lost.0 ∷ [], lost.1)
]

-- One `update`: the bus after it, the lines, and whether the state callbacks were called.
pub record Updated {ℓ} (B : Type ℓ) : Type ℓ where
  pub bus : B
  pub lines : List LogLine
  pub called : Bool

module _ {ℓ} {B : Type ℓ} (bus : HcpBus B) where
  -- What follows the log.
  unfoldable pub look_after : B → ℕ → List LogLine → Updated B
  look_after b now lines =
      let looked = bus.check_bus_silence (bus.publish_identity b) now in
      if (bus.state looked).changed
      then record {
        bus = bus.set_state looked (clear_changed (bus.state looked));
        lines = lines;
        called = true;
      }
      else record { bus = looked; lines = lines; called = false }

  -- `update` of a component whose bus was built; `none` is a log loop that is still turning.
  unfoldable pub update : B → ℕ → Option (Updated B)
  update b now = elim (drain_events (bus.events b)) [
    | none ↦ none
    | some drained ↦ some (look_after (bus.set_events b drained.1) now drained.0)
  ]

-- The bus that `setup` built.
pub data Engine : Type 0 where
  hcp1_engine : Hcp1Transport.Hcp1Transport → Engine
  hcp2_engine : Hcp2Transport.Hcp2Transport → Engine

-- What the configuration set.
pub record HcpBridge : Type 0 where
  pub tx_pin : ℤ
  pub rx_pin : ℤ
  pub rts_pin : ℤ
  pub hcp1 : Bool

abbrev pub caps : HcpBridge → HcpCapabilities
caps c = if c.hcp1 then hcp1_capabilities else hcp2_capabilities

-- What the drivers and FreeRTOS return.
pub record Board : Type 0 where
  pub rtu : RtuDriver
  pub serial : SerialDriver
  pub created : Bool
  pub handle : Bool

unfoldable pub begin_engine : Board → HcpBridge → Engine → Engine × Bool
begin_engine o c (hcp1_engine t) =
    let r = Hcp1Transport.begin_transport o.serial t o.created o.handle in (hcp1_engine r.0, r.1)
begin_engine o c (hcp2_engine t) =
    let r = Hcp2Transport.begin_transport o.rtu t c.rts_pin o.created o.handle in
    (hcp2_engine r.0, r.1)

-- `setup`: the bus, which is there whatever fails, and whether the component marked itself failed.
unfoldable pub setup : Board → HcpBridge → Engine × Bool
setup o c =
    let built =
      if c.hcp1
      then hcp1_engine Hcp1Transport.initial_transport
      else hcp2_engine Hcp2Transport.initial_transport in
    let begun = begin_engine o c built in
    if not (at_least c.rx_pin 0) || not (at_least c.tx_pin 0)
    then (built, true)
    else (begun.0, not begun.1)

-- How long the drive is given to confirm a pause.
abbrev pub pause_ack_wait_ms : ℕ
pause_ack_wait_ms = 800

-- `announce_pause`: whether the drive confirmed it, which is what is logged.
unfoldable pub announce_pause : ℕ → PauseWorld → Engine → Option (Engine × Bool)
announce_pause fuel w (hcp1_engine t) =
    let r = Hcp1Transport.announce_pause pause_ack_wait_ms t.codec in
    some (hcp1_engine (record t { codec = r.0 }), r.1)
announce_pause fuel w (hcp2_engine t) =
    elim (Hcp2Transport.announce_pause fuel w pause_ack_wait_ms t.codec) [
      | none ↦ none
      | some r ↦ some (hcp2_engine (record t { codec = r.0 }), r.1)
    ]

-- `quiesce` of both buses, and the frames that the newer one serves in it.
unfoldable pub quiesce : SettleClock → List Arrival → Engine → Option Engine
quiesce w settling (hcp1_engine t) = elim (Hcp1Transport.quiesce w) [
  | none ↦ none
  | some end ↦ some (hcp1_engine t)
]
quiesce w settling (hcp2_engine t) = elim (settle_until_quiet w) [
  | none ↦ none
  | some end ↦ some (hcp2_engine (record t { codec = serve_frames settling t.codec }))
]

-- `on_shutdown`; `none` is a loop that is still turning.
unfoldable pub on_shutdown : ℕ → PauseWorld → SettleClock → List Arrival → Engine → Option Engine
on_shutdown fuel w clock settling e = elim (announce_pause fuel w e) [
  | none ↦ none
  | some r ↦ quiesce clock settling r.0
]

-- ===== src/Hcp1.antt =====
-- components/hcpbridge/hcp1_codec.h and hcp1_codec.cpp: what is answered on the older bus, and what
-- its broadcasts mean. Each function is one step of the task that runs it; the codec is passed on.
-- An answer is the list of its bytes, empty where the code returns 0.
pub mod Answers
pub mod Presses
pub mod Race
pub mod Unaddressed
mod Tests
use esphome_hcpbridge.Base.{
  ℕ, ◌+◌, ◌/◌, ◌%◌, Bool, true, false, not, ◌&&◌, ◌||◌, List, [], ◌∷◌, none, some, ℤ, at_most,
  at_least, ltb, ◌==◌, if◌then◌else◌, same, sub32, length, get_or,
}
use esphome_hcpbridge.State.{
  HoermannCommand, nothing, go_open, go_close, impulse, half, vent, light_on, light_off, stop,
  command_index, is_nothing, is_stop, HoermannState, DoorState, opened, opening, closed, closing,
  venting, stopped, same_door, is_moving, initial_state, never_seen, enumerating, registered,
  silent, same_link, set_state, set_light_on, set_relay_on, set_actuator_error,
  set_current_position, set_valid, set_link, cmd_stale_ms, bus_silence_ms,
}
use esphome_hcpbridge.Events.{
  HcpEvent, command_sent, command_stale, command_refused_no_link, busscan, state_changed,
  unknown_transfer_sub,
}
use esphome_hcpbridge.Ring.{HcpEventRing, empty_ring, push}
use esphome_hcpbridge.Hcp1Frame.{
  Hcp1Frame, hcp1_parse, hcp1_build, hcp1_next_counter, hcp1_max_frame, hcp1_addr_broadcast,
  hcp1_addr_self, hcp1_addr_master, hcp1_cmd_scan, hcp1_cmd_status_request,
  hcp1_cmd_status_response, hcp1_type_uap1, hcp1_do_open, hcp1_do_close, hcp1_do_impulse,
  hcp1_do_light, hcp1_do_vent, hcp1_s0_healthy,
}

pub record Hcp1Codec : Type 0 where
  pub state : HoermannState
  pub events : HcpEventRing
  pub addressed : Bool
  pub pending : HoermannCommand
  pub pending_at : ℕ
  pub last_sent : HoermannCommand
  pub last_sent_at : ℕ
  pub last_frame_at : ℕ

unfoldable pub initial_codec : Hcp1Codec
initial_codec = record {
  state = initial_state;
  events = empty_ring;
  addressed = false;
  pending = nothing;
  pending_at = 0;
  last_sent = nothing;
  last_sent_at = 0;
  last_frame_at = 0;
}

-- `this->events.push(event, a, b, at_ms)`.
abbrev pub push_event : Hcp1Codec → HcpEvent → ℕ → ℕ → ℕ → Hcp1Codec
push_event c e a b at_ms = record c {
  events = push c.events (record { event = e; a = a; b = b; at_ms = at_ms });
}

unfoldable pub command_byte : HoermannCommand → ℕ
command_byte go_open = hcp1_do_open
command_byte go_close = hcp1_do_close
command_byte impulse = hcp1_do_impulse
command_byte vent = hcp1_do_vent
command_byte light_on = hcp1_do_light
command_byte light_off = hcp1_do_light
command_byte _ = 0

unfoldable pub submit : Hcp1Codec → ℕ → HoermannCommand → Hcp1Codec × Bool
submit c now cmd =
    if not (is_stop cmd) && command_byte cmd == 0
    then (c, false)
    else (if not c.addressed
        then (push_event c command_stale (command_index cmd) 0 now, false)
        else (record c { pending_at = now; pending = cmd }, true))

unfoldable pub open_door : Hcp1Codec → ℕ → Hcp1Codec × Bool
open_door c now = submit c now go_open

unfoldable pub close_door : Hcp1Codec → ℕ → Hcp1Codec × Bool
close_door c now = submit c now go_close

unfoldable pub impulse_door : Hcp1Codec → ℕ → Hcp1Codec × Bool
impulse_door c now = submit c now impulse

unfoldable pub half_position_door : Hcp1Codec → ℕ → Hcp1Codec × Bool
half_position_door c now = submit c now half

unfoldable pub ventilation_position_door : Hcp1Codec → ℕ → Hcp1Codec × Bool
ventilation_position_door c now = submit c now vent

unfoldable pub turn_light : Hcp1Codec → ℕ → Bool → Hcp1Codec × Bool
turn_light c now on =
    if same on c.state.lamp then (c, true) else submit c now (if on then light_on else light_off)

-- Whole percents; a negative percentage is a request to close, as 0 is.
unfoldable pub set_position : Hcp1Codec → ℕ → ℤ → Hcp1Codec × Bool
set_position c now percent =
    if at_most percent 5
    then close_door c now
    else (if at_least percent 95 then open_door c now else (c, false))

unfoldable pub check_bus_silence : Hcp1Codec → ℕ → Hcp1Codec
check_bus_silence c now =
    if c.last_frame_at == 0
    then c
    else (if ltb bus_silence_ms (sub32 now c.last_frame_at)
        then record c {
          state = set_link (set_valid c.state false) silent;
          pending = nothing;
          addressed = false;
        }
        else c)

unfoldable pub stop_door : Hcp1Codec → ℕ → Hcp1Codec × Bool
stop_door c now =
    if not c.addressed
    then (push_event c command_refused_no_link (command_index stop) 0 now, false)
    else (record c { pending_at = now; pending = stop }, true)

-- The bits of the first broadcast byte.
abbrev pub bit_set : ℕ → ℕ → Bool
bit_set d0 weight = d0 / weight % 2 == 1

-- What the first broadcast byte says of the door: `next` in `applyBroadcast`.
unfoldable pub door_of : ℕ → DoorState
door_of d0 =
    if bit_set d0 64
    then (if bit_set d0 32 then closing else opening)
    else (if bit_set d0 128
        then venting
        else (if bit_set d0 1 then opened else (if bit_set d0 2 then closed else stopped)))

-- The ends are the only positions that this bus can tell.
abbrev pub end_position : HoermannState → DoorState → HoermannState
end_position s opened = set_current_position s 200
end_position s closed = set_current_position s 0
end_position s _ = s

unfoldable pub apply_broadcast : Hcp1Codec → ℕ → List ℕ → Hcp1Codec
apply_broadcast c now payload =
    let d0 = get_or payload 0 0 in
    let next = door_of d0 in
    let noted = if same_door next c.state.door then c else push_event c state_changed d0 0 now in
    let moved = set_state noted.state next in
    let lit = set_light_on moved (bit_set d0 8) in
    let relayed = set_relay_on lit (bit_set d0 4) in
    let checked = set_actuator_error relayed (bit_set d0 16) in
    if ltb (length payload) 2
    then c
    else record noted { state = set_valid (end_position checked next) true }

unfoldable pub answer_scan : ℕ → List ℕ
answer_scan counter =
    hcp1_build hcp1_max_frame hcp1_addr_master (hcp1_next_counter counter)
      (hcp1_type_uap1 ∷ hcp1_addr_self ∷ [])

-- A stop turns into an impulse where the door moves, and into nothing where it stands.
unfoldable pub resolve_stop : DoorState → HoermannCommand → HoermannCommand
resolve_stop door stop = if is_moving door then impulse else nothing
resolve_stop door cmd = cmd

-- What `answerStatus` does with a press that it found queued: the codec after, and the byte to send.
unfoldable pub take_press : Hcp1Codec → ℕ → HoermannCommand → Hcp1Codec × ℕ
take_press c now queued =
    let cmd = resolve_stop c.state.door queued in
    let byte = command_byte cmd in
    if ltb cmd_stale_ms (sub32 now c.pending_at)
    then (push_event c command_stale (command_index queued) 0 now, 0)
    else (if byte == 0 then (c, 0) else (
      record (push_event c command_sent (command_index cmd) byte now) {
        last_sent = cmd;
        last_sent_at = now;
      },
      byte,
    ))

unfoldable pub status_payload : ℕ → List ℕ
status_payload do_this = hcp1_cmd_status_response ∷ do_this ∷ hcp1_s0_healthy ∷ []

-- `answerStatus` once it has loaded the slot: what was loaded is dealt with, and the slot emptied.
unfoldable pub answer_loaded : Hcp1Codec → ℕ → ℕ → HoermannCommand → Hcp1Codec × List ℕ
answer_loaded c now counter queued =
    let taken = take_press c now queued in
    let found : Hcp1Codec × ℕ =
      if is_nothing queued then (c, 0) else (record (taken.0) { pending = nothing }, taken.1) in
    (
      found.0,
      hcp1_build hcp1_max_frame hcp1_addr_master (hcp1_next_counter counter)
          (status_payload found.1),
    )

unfoldable pub answer_status : Hcp1Codec → ℕ → ℕ → Hcp1Codec × List ℕ
unfolding answer_loaded
answer_status c now counter = answer_loaded c now counter c.pending

-- The `switch` on the first byte of a frame addressed to this accessory.
unfoldable pub answer_request : Hcp1Codec → ℕ → Hcp1Frame → Hcp1Codec × List ℕ
answer_request c now f =
    let request = get_or f.payload 0 0 in
    if request == hcp1_cmd_scan
    then (push_event (record c { addressed = true }) busscan 0 0 now, answer_scan f.counter)
    else (if request == hcp1_cmd_status_request
        then (if not c.addressed
            then (c, [])
            else answer_status (record c { state = set_link c.state registered }) now f.counter)
        else (push_event c unknown_transfer_sub request 0 now, []))

-- A parsed frame: a sign of life, then a broadcast or a request.
unfoldable pub on_parsed : Hcp1Codec → ℕ → Hcp1Frame → Hcp1Codec × List ℕ
on_parsed c now f =
    let alive = record c {
      last_frame_at = if now == 0 then 1 else now;
      state = if same_link c.state.link never_seen then set_link c.state enumerating else c.state;
    } in
    if f.address == hcp1_addr_broadcast
    then ((if c.addressed then apply_broadcast alive now f.payload else alive), [])
    else (if not (f.address == hcp1_addr_self) || ltb (length f.payload) 1
        then (alive, [])
        else answer_request alive now f)

unfoldable pub on_frame : Hcp1Codec → ℕ → List ℕ → Hcp1Codec × List ℕ
unfolding on_parsed
on_frame c now buf = elim (hcp1_parse buf) [ none ↦ (c, []) | some f ↦ on_parsed c now f ]

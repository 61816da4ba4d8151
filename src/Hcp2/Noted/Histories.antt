-- ===== src/Hcp2/Noted/Histories.antt =====
-- The ring of the codec over broadcasts and whole histories: it is always in a state that it can be
-- in.
use esphome_hcpbridge.Base.{
  ℕ, zero, suc, ◌+◌, ◌*◌, true, not, List, arith, get_or, drop, if◌then◌else◌, same, inl, inr, ◌∷◌,
  [], ◌++◌, hi_byte, u32, Option-cases,
}
use esphome_hcpbridge.State.{go_open, go_close, impulse, half, vent, light_on, light_off}
use esphome_hcpbridge.Hcp2Frame.{hcp2_validate}
use esphome_hcpbridge.Hcp2.Codec.{
  Hcp2Codec, rd16, request_pause, end_pause, drop_queued_command, initial_codec,
}
use esphome_hcpbridge.Hcp2.Commands.{
  open_door, close_door, impulse_door, half_position_door, ventilation_position_door, turn_light,
}
use esphome_hcpbridge.Hcp2.Poll.{on_request_hook}
use esphome_hcpbridge.Hcp2.Broadcast.{
  write_bcast, write_bcasts, on_door_position_changed, on_current_state_changed,
  on_reg_seven_changed, decode_state,
}
use esphome_hcpbridge.Hcp2.Frame.{notice_frame, on_broadcast, on_valid_frame, on_frame}
use esphome_hcpbridge.Hcp2.Noted.{
  Keeps, noted, noted-set_command, noted-stop_door, noted-set_position, noted-check_bus_silence,
  noted-on_request_hook, noted-on_read_write, noted-check_goto_target,
}
use esphome_hcpbridge.Events.{
  HcpEventEntry, state_changed, unknown_state, relay_register, wrong_broadcast_block,
}
use esphome_hcpbridge.Ring.{HcpEventRing}
use esphome_hcpbridge.Ring.Holds.{Holds, room_cases, push-Holds, push_full-Holds}
use esphome_hcpbridge.Ring.Queue.{empty_ring-Holds}
use esphome_hcpbridge.Hcp2.Identity.{publish_identity}
use esphome_hcpbridge.Hcp2.Runs.{
  Step, frame, opens, closes, toggles, halves, vents, stops, lights, positions, silence, pauses,
  resumes, drops, publishes, step,
}

module _ (P : HcpEventRing → Type 0) (keeps : Keeps P) where
  noted-on_current_state_changed :
      (c : Hcp2Codec) (old val : ℕ) → P c.events → P (on_current_state_changed c old val).events
  unfolding on_current_state_changed
  noted-on_current_state_changed c old val h =
      let seen = noted P keeps c state_changed (hi_byte val) val 0 h in
      elim (Option-cases (decode_state val)) [
        | inl unknown ↦ rw unknown (
            ground (
              arith,
              h,
              keeps _ (record { event = unknown_state; a = hi_byte val; b = val; at_ms = 0 }) seen,
            ))
        | inr (d, known) ↦ rw known (ground (arith, h, seen))
      ]

  noted-on_door_position_changed :
      (c : Hcp2Codec) (old val : ℕ) → P c.events → P (on_door_position_changed c old val).events
  unfolding on_door_position_changed
  noted-on_door_position_changed c old val h = ground (arith, h)

  noted-on_reg_seven_changed :
      (c : Hcp2Codec) (old val : ℕ) → P c.events → P (on_reg_seven_changed c old val).events
  unfolding on_reg_seven_changed
  noted-on_reg_seven_changed c old val h =
      ground (arith, h, noted P keeps c relay_register 0 val 0 h)

  noted-write_bcast : (c : Hcp2Codec) (i val : ℕ) → P c.events → P (write_bcast c i val).events
  unfolding write_bcast
  noted-write_bcast c i val h =
      let old = get_or c.reg_bcast i 0 in
      let counted = record c { state_writes = u32 (c.state_writes + 1) } in
      ground (
        arith,
        h,
        noted-on_door_position_changed c old val h,
        noted-on_current_state_changed c old val h,
        noted-on_current_state_changed counted old val h,
        noted-on_reg_seven_changed c old val h,
      )

  noted-write_bcasts :
      (left i : ℕ) (wdata : List ℕ) (c : Hcp2Codec)
      → P c.events
      → P (write_bcasts left i wdata c).events
  unfolding write_bcasts
  noted-write_bcasts zero i wdata c h = h
  noted-write_bcasts (suc left) i wdata c h =
      noted-write_bcasts left (i + 1) wdata (write_bcast c i (rd16 wdata (2 * i)))
        (noted-write_bcast c i (rd16 wdata (2 * i)) h)

  noted-on_broadcast :
      (c : Hcp2Codec) (now : ℕ) (req : List ℕ) (len : ℕ)
      → P c.events
      → P (on_broadcast c now req len).0.events
  unfolding on_broadcast
  noted-on_broadcast c now req len h =
      let cnt = rd16 req 4 in
      let hooked = on_request_hook c now 0x10 cnt 0 0 in
      let written = write_bcasts cnt 0 (drop 7 req) hooked in
      ground (
        arith,
        h,
        noted P keeps c wrong_broadcast_block (rd16 req 2) 0 now h,
        noted-check_goto_target P keeps written now (
            noted-write_bcasts cnt 0 (drop 7 req) hooked
              (noted-on_request_hook P keeps c now 0x10 cnt 0 0 h)),
      )

  noted-on_frame :
      (c : Hcp2Codec) (now : ℕ) (raw : List ℕ) → P c.events → P (on_frame c now raw).0.events
  unfolding on_frame on_valid_frame notice_frame
  noted-on_frame c now raw h =
      let alive = notice_frame c now in
      let len = hcp2_validate raw in
      ground (
        arith,
        h,
        noted-on_read_write P keeps alive now raw len h,
        noted-on_broadcast alive now raw len h,
      )

  noted-step : (c : Hcp2Codec) (s : Step) → P c.events → P (step c s).after.events
  unfolding step open_door close_door impulse_door half_position_door ventilation_position_door
      turn_light request_pause end_pause drop_queued_command publish_identity
  noted-step c (frame now raw) h = noted-on_frame c now raw h
  noted-step c (opens now) h = noted-set_command P keeps c now true go_open h
  noted-step c (closes now) h = noted-set_command P keeps c now true go_close h
  noted-step c (toggles now) h = noted-set_command P keeps c now true impulse h
  noted-step c (halves now) h = noted-set_command P keeps c now true half h
  noted-step c (vents now) h = noted-set_command P keeps c now true vent h
  noted-step c (stops now) h = noted-stop_door P keeps c now h
  noted-step c (lights now on) h =
      noted-set_command P keeps c now (not (same on c.state.lamp))
        (if on then light_on else light_off) h
  noted-step c (positions now percent) h = noted-set_position P keeps c now percent h
  noted-step c (silence now) h = noted-check_bus_silence P keeps c now h
  noted-step c pauses h = h
  noted-step c resumes h = h
  noted-step c drops h = h
  noted-step c publishes h = h

-- Some entries are in the ring, and it is sound.
abbrev pub IsSound : HcpEventRing → Type 0
IsSound r = (base : ℕ) × (q : List HcpEventEntry) × Holds r base q

pub keeps-IsSound : Keeps IsSound
keeps-IsSound r e sound =
    let (base, q, ring) = sound in
    elim (room_cases ring) [
      | inl room ↦ (base, q ++ e ∷ [], push-Holds ring e room)
      | inr full ↦ (base, q, (push_full-Holds ring e full).0)
    ]

pub step-IsSound : (c : Hcp2Codec) (s : Step) → IsSound c.events → IsSound (step c s).after.events
step-IsSound = noted-step IsSound keeps-IsSound

pub start-IsSound : IsSound initial_codec.events
unfolding initial_codec
start-IsSound = (0, [], empty_ring-Holds)

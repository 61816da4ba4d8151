-- ===== src/Hcp2/NoStop.antt =====
-- A stop is an intent, never a value on the wire.
use esphome_hcpbridge.Base.{sym, subst, false, ℕ, ◌≡◌, arith, List, get_or, drop}
use esphome_hcpbridge.State.{HoermannCommand, nothing, is_stop}
use esphome_hcpbridge.State.Laws.{is_stop-nothing, is_stop-impulse}
use esphome_hcpbridge.Hcp2.Codec.{Hcp2Codec, clear_if_still, rd16}
use esphome_hcpbridge.Hcp2.Watch.{
  check_command_effect, rearm_lost_command, sync_counter, repeat_still_makes_sense,
}
use esphome_hcpbridge.Hcp2.Poll.{
  honour_cancel, drop_stale, resolve_stop, choose_command, start_watch, serve_loaded,
  set_command_values_to_read, status_poll, on_request_hook, clear_status, answer_pause,
  answer_other,
}
use esphome_hcpbridge.Hcp2.Presses.{
  Presses, presses, presses-mark_registered, presses-write_bcasts, presses-notice_frame,
}
use esphome_hcpbridge.Hcp2.Commands.{stop_door}
use esphome_hcpbridge.Hcp2.Broadcast.{check_goto_target}
use esphome_hcpbridge.Hcp2Frame.{hcp2_validate}
use esphome_hcpbridge.Hcp2.Frame.{
  notice_frame, serve_read_write, on_read_write, on_broadcast, on_valid_frame, on_frame,
}
use esphome_hcpbridge.Hcp2.Repeats.{presses-write_command}
use esphome_hcpbridge.Hcp2.Budget.{
  presses-status_poll, presses-answer_other, presses-serve_read_write,
}

-- No stop is watched, armed or on the wire.
pub record NoStop (p : Presses) : Type 0 where
  pub awaited : is_stop p.awaited ≡ false
  pub armed : is_stop p.armed ≡ false
  pub last : is_stop p.last ≡ false

check_command_effect-NoStop :
    (c : Hcp2Codec) (now : ℕ) → NoStop (presses c) → NoStop (presses (check_command_effect c now))
unfolding check_command_effect
check_command_effect-NoStop c now h = ground (arith, is_stop-nothing, h.awaited, h.armed, h.last)

honour_cancel-NoStop : (c : Hcp2Codec) → NoStop (presses c) → NoStop (presses (honour_cancel c))
unfolding honour_cancel
honour_cancel-NoStop c h = ground (arith, is_stop-nothing, h.awaited, h.armed, h.last)

sync_counter-NoStop :
    (c : Hcp2Codec) (counter_byte command : ℕ)
    → NoStop (presses c)
    → NoStop (presses (sync_counter c counter_byte command))
unfolding sync_counter rearm_lost_command
sync_counter-NoStop c counter_byte command h =
    ground (arith, is_stop-nothing, h.awaited, h.armed, h.last)

resolve_stop-NoStop :
    (c : Hcp2Codec) (cmd : HoermannCommand)
    → NoStop (presses c)
    → NoStop (presses (resolve_stop c cmd).0) × (is_stop (resolve_stop c cmd).1 ≡ false)
unfolding resolve_stop clear_if_still
resolve_stop-NoStop c cmd h =
    ground (arith, is_stop-nothing, is_stop-impulse, h.awaited, h.armed, h.last)

drop_stale-NoStop :
    (c : Hcp2Codec) (now : ℕ) (cmd : HoermannCommand)
    → NoStop (presses c)
    → NoStop (presses (drop_stale c now cmd).0)
unfolding drop_stale clear_if_still
drop_stale-NoStop c now cmd h = ground (arith, h.awaited, h.armed, h.last)

choose_command-NoStop :
    (c : Hcp2Codec) (now : ℕ) (cmd : HoermannCommand)
    → NoStop (presses c)
    → is_stop cmd ≡ false
    → let r = choose_command c now cmd in NoStop (record (presses r.0) { last = r.1 })
unfolding choose_command start_watch clear_if_still repeat_still_makes_sense
choose_command-NoStop c now cmd h l = ground (arith, is_stop-nothing, h.awaited, h.armed, h.last)

serve_loaded-NoStop :
    (c : Hcp2Codec) (now : ℕ) (loaded : HoermannCommand)
    → NoStop (presses c)
    → NoStop (presses (serve_loaded c now loaded))
unfolding serve_loaded
serve_loaded-NoStop c now loaded h =
    let fresh = drop_stale c now loaded in
    let resolved = resolve_stop fresh.0 fresh.1 in
    let chosen = choose_command resolved.0 now resolved.1 in
    let second = resolve_stop-NoStop fresh.0 fresh.1 (drop_stale-NoStop c now loaded h) in
    subst (λ (p : Presses). NoStop p) (sym (presses-write_command chosen.0 now chosen.1 chosen.2))
      (choose_command-NoStop resolved.0 now resolved.1 second.0 second.1)

set_command_values_to_read-NoStop :
    (c : Hcp2Codec) (now : ℕ)
    → NoStop (presses c)
    → NoStop (presses (set_command_values_to_read c now))
unfolding set_command_values_to_read
set_command_values_to_read-NoStop c now h =
    let watched = honour_cancel (check_command_effect c now) in
    serve_loaded-NoStop watched now watched.next_command
      (honour_cancel-NoStop (check_command_effect c now) (check_command_effect-NoStop c now h))

status_poll-NoStop :
    (c : Hcp2Codec) (now : ℕ) → NoStop (presses c) → NoStop (presses (status_poll c now))
unfolding status_poll answer_pause
status_poll-NoStop c now h = ground (
  arith,
  is_stop-nothing,
  h.awaited,
  h.armed,
  h.last,
  presses-status_poll c now,
  set_command_values_to_read-NoStop (clear_status c) now h,
)

on_request_hook-NoStop :
    (c : Hcp2Codec) (now fc c1 c2 command : ℕ)
    → NoStop (presses c)
    → NoStop (presses (on_request_hook c now fc c1 c2 command))
unfolding on_request_hook
on_request_hook-NoStop c now fc c1 c2 command h =
    let other = answer_other c now fc c1 c2 in
    ground (
      arith,
      status_poll-NoStop c now h,
      h,
      presses-mark_registered other,
      presses-answer_other c now fc c1 c2,
    )

serve_read_write-NoStop :
    (c : Hcp2Codec) (now : ℕ) (req : List ℕ) (read_cnt write_cnt : ℕ)
    → NoStop (presses c)
    → NoStop (presses (serve_read_write c now req read_cnt write_cnt).0)
serve_read_write-NoStop c now req read_cnt write_cnt h =
    let wdata = drop 11 req in
    let counter = get_or wdata 0 0 in
    let command = get_or wdata 1 0 in
    let synced = sync_counter-NoStop c counter command h in
    subst (λ (p : Presses). NoStop p) (sym (presses-serve_read_write c now req read_cnt write_cnt))
      (on_request_hook-NoStop
        (record (sync_counter c counter command) { last_sent_command = nothing }) now 0x17 read_cnt
        write_cnt command
        (record { awaited = synced.awaited; armed = synced.armed; last = is_stop-nothing }))

-- A broadcast can put a stop into the slot, and no further.
on_broadcast-NoStop :
    (c : Hcp2Codec) (now : ℕ) (req : List ℕ) (len : ℕ)
    → NoStop (presses c)
    → NoStop (presses (on_broadcast c now req len).0)
unfolding on_broadcast check_goto_target stop_door
on_broadcast-NoStop c now req len h =
    let hooked = on_request_hook c now 0x10 (rd16 req 4) 0 0 in
    ground (
      arith,
      h,
      on_request_hook-NoStop c now 0x10 (rd16 req 4) 0 0 h,
      presses-write_bcasts (rd16 req 4) 0 (drop 7 req) hooked,
    )

pub on_frame-NoStop :
    (c : Hcp2Codec) (now : ℕ) (raw : List ℕ)
    → NoStop (presses c)
    → NoStop (presses (on_frame c now raw).0)
unfolding on_frame on_valid_frame on_read_write
on_frame-NoStop c now raw h =
    let alive = notice_frame c now in
    let len = hcp2_validate raw in
    let kept = subst (λ (p : Presses). NoStop p) (sym (presses-notice_frame c now)) h in
    ground (
      arith,
      h,
      kept,
      serve_read_write-NoStop alive now raw (rd16 raw 4) (rd16 raw 8) kept,
      on_broadcast-NoStop alive now raw len kept,
    )

-- ===== src/Hcp2/Target.antt =====
-- The target of a run that is to end partway: `gotoRequest` on its way to `gotoPosition`.
use esphome_hcpbridge.Base.{
  ap, ◌∙◌, sym, subst, true, false, ℕ, ◌≤◌, ◌*◌, ◌≡◌, ◌≢◌, ◌&&◌, not, arith, if◌then◌else◌, sub32,
  ◌==◌, ℤ, pos,
}
use esphome_hcpbridge.State.{
  HoermannState, DoorState, nothing, stop, go_open, is_nothing, is_stop, is_moving, cmd_stale_ms,
  set_state, set_goto_position,
}
use esphome_hcpbridge.State.Laws.{
  is_nothing-nothing, is_nothing-stop, is_stop-stop, is_stop-nothing, same_command_self,
}
use esphome_hcpbridge.Hcp2.Codec.{Hcp2Codec, clear_if_still}
use esphome_hcpbridge.Hcp2.Commands.{set_command, stop_door, set_position, open_door, close_door}
use esphome_hcpbridge.Hcp2.Poll.{
  set_command_values_to_read, honour_cancel, goto_of, drop_stale, resolve_stop, choose_command,
  start_watch, write_command, serve_loaded,
}
use esphome_hcpbridge.Hcp2.Watch.{check_command_effect}
use esphome_hcpbridge.Hcp2.Broadcast.{goto_arrived, check_goto_target}

-- A run to a position that is refused leaves the request for a target as it was.
pub goto_request-set_position_refused :
    (c : Hcp2Codec) (now : ℕ) (percent : ℤ)
    → (set_position c now percent).1 ≡ false
    → (set_position c now percent).0.goto_request ≡ c.goto_request
unfolding set_position set_command open_door close_door
goto_request-set_position_refused c now percent refused = ground arith

-- After a broadcast, the check at the target is done; the codec presses a stop and forgets the
-- target exactly if a check was due, a run is under way to a target, the door moves and has
-- reached it, and a stop can be taken. Else slot and target stay.
pub check_goto_target_lem :
    (c : Hcp2Codec) (now : ℕ)
    → let d = check_goto_target c now in
      let due =
        c.goto_check_pending
        && not (c.state.goto_position == 0)
        && goto_arrived c.state
        && (c.state.valid && not c.pause_requested) in
      (d.goto_check_pending ≡ false)
      × (d.next_command ≡ (if due then stop else c.next_command))
      × (d.state.goto_position ≡ (if due then 0 else c.state.goto_position))
unfolding check_goto_target stop_door set_goto_position
check_goto_target_lem c now = ground arith

-- A change from a moving to a standing door forgets the target of the run.
pub goto_position-set_state_end :
    (s : HoermannState) (next : DoorState)
    → is_moving s.door ≡ true
    → is_moving next ≡ false
    → (set_state s next).goto_position ≡ 0
unfolding set_state is_moving
goto_position-set_state_end s next was now = ground arith

-- What survives the start of a poll.
watch_keeps :
    (c : Hcp2Codec) (now : ℕ)
    → let d = honour_cancel (check_command_effect c now) in
      (d.goto_request ≡ c.goto_request)
      × (d.next_command ≡ c.next_command)
      × (d.next_command_on ≡ c.next_command_on)
      × (d.state.door ≡ c.state.door)
      × (d.state.valid ≡ c.state.valid)
      × (d.pause_requested ≡ c.pause_requested)
unfolding honour_cancel check_command_effect set_goto_position
watch_keeps c now = ground arith

-- A poll that meets a stop while the door stands.
record IsCancelled (before after : Hcp2Codec) : Type 0 where
  wish : after.goto_request ≡ before.goto_request
  slot : after.next_command ≡ nothing
  valid : after.state.valid ≡ before.state.valid
  pausing : after.pause_requested ≡ before.pause_requested

serve_loaded-emptied :
    (c : Hcp2Codec) (now : ℕ)
    → c.next_command ≡ stop
    → is_moving c.state.door ≡ false
    → let d = serve_loaded c now c.next_command in
      (d.goto_request ≡ c.goto_request)
      × (d.next_command ≡ nothing)
      × (d.state.valid ≡ c.state.valid)
      × (d.pause_requested ≡ c.pause_requested)
unfolding serve_loaded drop_stale resolve_stop choose_command start_watch write_command
    clear_if_still
serve_loaded-emptied c now queued stands = ground (
  arith,
  is_nothing-nothing,
  is_nothing-stop,
  is_stop-stop,
  is_stop-nothing,
  same_command_self stop,
)

serve_loaded-IsCancelled :
    (c : Hcp2Codec) (now : ℕ)
    → c.next_command ≡ stop
    → is_moving c.state.door ≡ false
    → IsCancelled c (serve_loaded c now c.next_command)
serve_loaded-IsCancelled c now queued stands =
    let r = serve_loaded-emptied c now queued stands in
    record { wish = r.0; slot = r.1; valid = r.2; pausing = r.3 }

poll-IsCancelled :
    (c : Hcp2Codec) (now : ℕ)
    → c.next_command ≡ stop
    → is_moving c.state.door ≡ false
    → IsCancelled c (set_command_values_to_read c now)
unfolding set_command_values_to_read
poll-IsCancelled c now queued stands =
    let d = honour_cancel (check_command_effect c now) in
    let k = watch_keeps c now in
    let r =
      serve_loaded-IsCancelled d now (ground (arith, k, queued)) (ground (arith, k, stands)) in
    record {
      wish = ground (arith, k, r.wish);
      slot = r.slot;
      valid = ground (arith, k, r.valid);
      pausing = ground (arith, k, r.pausing);
    }

serve_loaded-open :
    (c : Hcp2Codec) (now : ℕ)
    → c.next_command ≡ go_open
    → sub32 now c.next_command_on ≤ cmd_stale_ms
    → let e = serve_loaded c now c.next_command in
      (e.last_sent_command ≡ go_open)
      × (e.state.goto_position ≡ goto_of c.goto_request)
      × (e.next_command ≡ nothing)
unfolding serve_loaded drop_stale resolve_stop choose_command start_watch write_command
    clear_if_still is_nothing is_stop set_goto_position
serve_loaded-open c now queued fresh = ground (arith, same_command_self go_open)

pub poll-open :
    (c : Hcp2Codec) (now : ℕ)
    → c.next_command ≡ go_open
    → sub32 now c.next_command_on ≤ cmd_stale_ms
    → let e = set_command_values_to_read c now in
      (e.last_sent_command ≡ go_open)
      × (e.state.goto_position ≡ goto_of c.goto_request)
      × (e.next_command ≡ nothing)
unfolding set_command_values_to_read
poll-open c now queued fresh =
    let d = honour_cancel (check_command_effect c now) in
    let k = watch_keeps c now in
    ground
      (arith, k, serve_loaded-open d now (ground (arith, k, queued)) (ground (arith, k, fresh)))

open_door_lem :
    (c : Hcp2Codec) (now : ℕ)
    → c.state.valid ≡ true
    → c.pause_requested ≡ false
    → c.next_command ≡ nothing
    → let d = (open_door c now).0 in
      (d.next_command ≡ go_open) × (d.next_command_on ≡ now) × (d.goto_request ≡ c.goto_request)
unfolding open_door set_command
open_door_lem c now valid live free = ground (arith, is_nothing-nothing)

-- A run to a position that was pressed, then stopped before the poll, at a standing door.
pub asked_and_stopped : Hcp2Codec → ℕ → ℕ → ℕ → Hcp2Codec
asked_and_stopped c asked stopped percent =
    (stop_door (set_position c asked (pos percent)).0 stopped).0

asked_and_stopped_lem :
    (c : Hcp2Codec) (asked stopped percent : ℕ)
    → c.state.valid ≡ true
    → c.pause_requested ≡ false
    → is_nothing c.next_command ≡ true
    → c.caps.has_position ≡ true
    → 6 ≤ percent
    → percent ≤ 94
    → c.state.current_position ≢ percent * 2
    → let d = asked_and_stopped c asked stopped percent in
      (d.goto_request ≡ pos percent)
      × (d.next_command ≡ stop)
      × (d.state ≡ c.state)
      × (d.pause_requested ≡ false)
unfolding asked_and_stopped stop_door set_position set_command
asked_and_stopped_lem c asked stopped percent valid live free able low high elsewhere = ground arith

-- With a registered codec, an empty slot and a standing door: a run to a percentage that was
-- pressed and then stopped before any poll leaves its target behind, and an open that is pressed
-- later goes out armed to stop at that percentage.
pub left_over_target :
    (c : Hcp2Codec) (asked stopped polled pressed served percent : ℕ)
    → c.state.valid ≡ true
    → c.pause_requested ≡ false
    → is_nothing c.next_command ≡ true
    → c.caps.has_position ≡ true
    → is_moving c.state.door ≡ false
    → 6 ≤ percent
    → percent ≤ 94
    → c.state.current_position ≢ percent * 2
    → sub32 served pressed ≤ cmd_stale_ms
    → let d = set_command_values_to_read (asked_and_stopped c asked stopped percent) polled in
      let e = set_command_values_to_read (open_door d pressed).0 served in
      (e.last_sent_command ≡ go_open) × (e.state.goto_position ≡ percent * 2)
left_over_target c asked stopped polled pressed served percent valid live free able stands low high
      elsewhere fresh =
    let a = asked_and_stopped c asked stopped percent in
    let k = asked_and_stopped_lem c asked stopped percent valid live free able low high elsewhere in
    let d = set_command_values_to_read a polled in
    let r = poll-IsCancelled a polled k.1 (ground (arith, k, stands)) in
    let pressing = open_door d pressed in
    let taken =
      open_door_lem d pressed (ground (arith, r.valid, k, valid)) (ground (arith, r.pausing, k))
        r.slot in
    let o =
      poll-open pressing.0 served taken.0
        (subst (λ (t : ℕ). sub32 served t ≤ cmd_stale_ms) (sym taken.1) fresh) in
    (o.0, o.1 ∙ ap goto_of (taken.2 ∙ r.wish ∙ k.0))

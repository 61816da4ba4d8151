-- ===== src/Hcp2/Board/Histories.antt =====
-- What the state shows of the drive, over whole histories of the codec.
use esphome_hcpbridge.Base.{
  ℕ, zero, suc, ◌+◌, ◌*◌, ◌≤◌, ◌≡◌, sym, subst, true, not, ◌&&◌, ◌==◌, ltb, List, [], ◌∷◌, arith,
  get_or, drop, if◌then◌else◌, same, Bool-cases, inl, inr,
}
use esphome_hcpbridge.State.{go_open, go_close, impulse, half, vent, light_on, light_off}
use esphome_hcpbridge.Hcp2Frame.{hcp2_validate}
use esphome_hcpbridge.Hcp2.Codec.{
  Hcp2Codec, rd16, reg_bcast_base, request_pause, end_pause, drop_queued_command,
}
use esphome_hcpbridge.Hcp2.Commands.{
  open_door, close_door, impulse_door, half_position_door, ventilation_position_door, turn_light,
}
use esphome_hcpbridge.Hcp2.Poll.{on_request_hook}
use esphome_hcpbridge.Hcp2.Broadcast.{write_bcast, write_bcasts, check_goto_target}
use esphome_hcpbridge.Hcp2.Frame.{
  notice_frame, broadcast_fits, on_broadcast, on_valid_frame, on_frame,
}
use esphome_hcpbridge.Hcp2.Board.{
  Board, board, board-set_command, board-stop_door, board-set_position, board-check_bus_silence,
  board-publish_identity, board-on_request_hook,
}
use esphome_hcpbridge.Hcp2.Board.Frames.{
  board-on_read_write, board-notice_frame, board-check_goto_target,
}
use esphome_hcpbridge.Hcp2.Board.Mirror.{IsMirror, write_bcast-IsMirror}
use esphome_hcpbridge.Hcp2.Runs.{
  Step, frame, opens, closes, toggles, halves, vents, stops, lights, positions, silence, pauses,
  resumes, drops, publishes, step, run,
}

-- What leaves the board alone keeps it true.
kept : {a b : Board} → a ≡ b → IsMirror b → IsMirror a
kept same_board m = subst (λ (x : Board). IsMirror x) (sym same_board) m

pub write_bcasts-IsMirror :
    (left i : ℕ) (wdata : List ℕ) (c : Hcp2Codec)
    → i + left ≤ 9
    → IsMirror (board c)
    → IsMirror (board (write_bcasts left i wdata c))
unfolding write_bcasts
write_bcasts-IsMirror zero i wdata c within m = m
write_bcasts-IsMirror (suc left) i wdata c within m =
    let val = rd16 wdata (2 * i) in
    write_bcasts-IsMirror left (i + 1) wdata (write_bcast c i val) (omega (arith, within))
      (write_bcast-IsMirror c i val (omega (arith, within)) m)

-- A broadcast that is written.
written-IsMirror :
    (c : Hcp2Codec) (now : ℕ) (req : List ℕ) (cnt : ℕ)
    → cnt ≤ 9
    → IsMirror (board c)
    → IsMirror (
        board (
          check_goto_target
            (write_bcasts cnt 0 (drop 7 req) (on_request_hook c now 0x10 cnt 0 0))
            now))
written-IsMirror c now req cnt within m =
    let hooked = on_request_hook c now 0x10 cnt 0 0 in
    kept (board-check_goto_target (write_bcasts cnt 0 (drop 7 req) hooked) now) (
      write_bcasts-IsMirror cnt 0 (drop 7 req) hooked (omega (arith, within))
        (kept (board-on_request_hook c now 0x10 cnt 0 0) m))

on_broadcast-IsMirror :
    (c : Hcp2Codec) (now : ℕ) (req : List ℕ) (len : ℕ)
    → IsMirror (board c)
    → IsMirror (board (on_broadcast c now req len).0)
unfolding on_broadcast
on_broadcast-IsMirror c now req len m =
    let cnt = rd16 req 4 in
    elim (Bool-cases (ltb len 7)) [
      | inl short ↦ rw short m
      | inr long ↦ elim (Bool-cases (not (rd16 req 2 == reg_bcast_base))) [
        | inl elsewhere ↦ rw (long, elsewhere) m
        | inr ours ↦ elim (Bool-cases (broadcast_fits len cnt (get_or req 6 0))) [
          | inl fits ↦
              rw (long, ours, fits) (written-IsMirror c now req cnt (ground (arith, fits)) m)
          | inr bad ↦ rw (long, ours, bad) m
        ]
      ]
    ]

on_valid_frame-IsMirror :
    (c : Hcp2Codec) (now : ℕ) (req : List ℕ) (len : ℕ)
    → IsMirror (board c)
    → IsMirror (board (on_valid_frame c now req len).0)
unfolding on_valid_frame
on_valid_frame-IsMirror c now req len m =
    let alive = notice_frame c now in
    let noticed = kept (board-notice_frame c now) m in
    elim (Bool-cases (get_or req 0 0 == 0x00 && get_or req 1 0 == 0x17)) [
      | inl all ↦ rw all noticed
      | inr one ↦ elim (Bool-cases (get_or req 1 0 == 0x17)) [
        | inl reads ↦ rw (one, reads) (kept (board-on_read_write alive now req len) noticed)
        | inr other ↦ elim (Bool-cases (get_or req 1 0 == 0x10)) [
          | inl writes ↦ rw (one, other, writes) (on_broadcast-IsMirror alive now req len noticed)
          | inr unknown ↦ rw (one, other, unknown) noticed
        ]
      ]
    ]

pub on_frame-IsMirror :
    (c : Hcp2Codec) (now : ℕ) (raw : List ℕ)
    → IsMirror (board c)
    → IsMirror (board (on_frame c now raw).0)
unfolding on_frame
on_frame-IsMirror c now raw m = elim (Bool-cases (hcp2_validate raw == 0)) [
  | inl broken ↦ rw broken m
  | inr whole ↦ rw whole (on_valid_frame-IsMirror c now raw (hcp2_validate raw) m)
]

pub step-IsMirror :
    (c : Hcp2Codec) (s : Step) → IsMirror (board c) → IsMirror (board (step c s).after)
unfolding step open_door close_door impulse_door half_position_door ventilation_position_door
    turn_light request_pause end_pause drop_queued_command
step-IsMirror c (frame now raw) m = on_frame-IsMirror c now raw m
step-IsMirror c (opens now) m = kept (board-set_command c now true go_open) m
step-IsMirror c (closes now) m = kept (board-set_command c now true go_close) m
step-IsMirror c (toggles now) m = kept (board-set_command c now true impulse) m
step-IsMirror c (halves now) m = kept (board-set_command c now true half) m
step-IsMirror c (vents now) m = kept (board-set_command c now true vent) m
step-IsMirror c (stops now) m = kept (board-stop_door c now) m
step-IsMirror c (lights now on) m =
    kept (board-set_command c now (not (same on c.state.lamp)) (if on then light_on else light_off))
      m
step-IsMirror c (positions now percent) m = kept (board-set_position c now percent) m
step-IsMirror c (silence now) m = kept (board-check_bus_silence c now) m
step-IsMirror c pauses m = m
step-IsMirror c resumes m = m
step-IsMirror c drops m = m
step-IsMirror c publishes m = kept (board-publish_identity c) m

pub run-IsMirror :
    (c : Hcp2Codec) (steps : List Step) → IsMirror (board c) → IsMirror (board (run c steps).after)
unfolding run
run-IsMirror c [] m = m
run-IsMirror c (s ∷ ss) m = run-IsMirror (step c s).after ss (step-IsMirror c s m)

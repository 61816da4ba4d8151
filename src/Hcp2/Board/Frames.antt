-- ===== src/Hcp2/Board/Frames.antt =====
-- What a frame of the newer bus leaves of the state block, other than a broadcast.
use esphome_hcpbridge.Base.{
  ℕ, zero, suc, ◌+◌, ◌*◌, ◌≡◌, refl, ◌∙◌, List, arith, hi_byte, get_or, drop,
}
use esphome_hcpbridge.State.{set_goto_position, set_link, nothing}
use esphome_hcpbridge.Hcp2.Codec.{Hcp2Codec, rd16, reg_cmd_base}
use esphome_hcpbridge.Hcp2.Commands.{stop_door}
use esphome_hcpbridge.Hcp2.Watch.{rearm_lost_command, sync_counter, advance_counter}
use esphome_hcpbridge.Hcp2.Poll.{arm_identity_request, on_request_hook}
use esphome_hcpbridge.Hcp2.Broadcast.{check_goto_target}
use esphome_hcpbridge.Hcp2.Identity.{
  answer_transfer, keep_firmware, keep_first_half, keep_second_half, on_identity_data,
  on_write_block_complete,
}
use esphome_hcpbridge.Hcp2.Frame.{
  on_counter_write, write_cmd, write_cmds, notice_frame, serve_read_write, on_read_write,
}
use esphome_hcpbridge.Hcp2.Board.{board, board-on_request_hook}

board-sync_counter :
    (c : Hcp2Codec) (counter_byte command : ℕ)
    → board (sync_counter c counter_byte command) ≡ board c
unfolding sync_counter rearm_lost_command
board-sync_counter c counter_byte command = ground arith

board-write_cmd : (c : Hcp2Codec) (i val : ℕ) → board (write_cmd c i val) ≡ board c
unfolding write_cmd on_counter_write
board-write_cmd c i val = ground arith

board-write_cmds :
    (left i : ℕ) (wdata : List ℕ) (c : Hcp2Codec) → board (write_cmds left i wdata c) ≡ board c
unfolding write_cmds
board-write_cmds zero i wdata c = refl
board-write_cmds (suc left) i wdata c =
    board-write_cmds left (i + 1) wdata (write_cmd c i (rd16 wdata (2 * i)))
    ∙ board-write_cmd c i (rd16 wdata (2 * i))

board-on_identity_data :
    (c : Hcp2Codec) (now counter_byte sub_code count : ℕ)
    → board (on_identity_data c now counter_byte sub_code count).0 ≡ board c
unfolding on_identity_data keep_firmware keep_first_half keep_second_half arm_identity_request
board-on_identity_data c now counter_byte sub_code count = ground arith

board-on_write_block_complete :
    (c : Hcp2Codec) (now addr count : ℕ)
    → board (on_write_block_complete c now addr count) ≡ board c
unfolding on_write_block_complete answer_transfer
board-on_write_block_complete c now addr count = ground (
  arith,
  board-on_identity_data c now (hi_byte (get_or c.reg_cmd 0 0)) (hi_byte (get_or c.reg_cmd 1 0))
      count,
)

board-serve_read_write :
    (c : Hcp2Codec) (now : ℕ) (req : List ℕ) (read_cnt write_cnt : ℕ)
    → board (serve_read_write c now req read_cnt write_cnt).0 ≡ board c
unfolding serve_read_write advance_counter
board-serve_read_write c now req read_cnt write_cnt =
    let wdata = drop 11 req in
    let synced = sync_counter c (get_or wdata 0 0) (get_or wdata 1 0) in
    let bare = record synced { last_sent_command = nothing } in
    let hooked = on_request_hook bare now 0x17 read_cnt write_cnt (get_or wdata 1 0) in
    board-on_write_block_complete (write_cmds write_cnt 0 wdata hooked) now reg_cmd_base write_cnt
    ∙ board-write_cmds write_cnt 0 wdata hooked
    ∙ board-on_request_hook bare now 0x17 read_cnt write_cnt (get_or wdata 1 0)
    ∙ board-sync_counter c (get_or wdata 0 0) (get_or wdata 1 0)

pub board-on_read_write :
    (c : Hcp2Codec) (now : ℕ) (req : List ℕ) (len : ℕ)
    → board (on_read_write c now req len).0 ≡ board c
unfolding on_read_write
board-on_read_write c now req len =
    ground (arith, board-serve_read_write c now req (rd16 req 4) (rd16 req 8))

pub board-notice_frame : (c : Hcp2Codec) (now : ℕ) → board (notice_frame c now) ≡ board c
unfolding notice_frame set_link
board-notice_frame c now = ground arith

pub board-check_goto_target : (c : Hcp2Codec) (now : ℕ) → board (check_goto_target c now) ≡ board c
unfolding check_goto_target stop_door set_goto_position
board-check_goto_target c now = ground arith

-- ===== src/Hcp2/Changed/Frames.antt =====
-- The flag of a change over the frames of the newer bus, other than broadcasts.
use esphome_hcpbridge.Base.{ℕ, zero, suc, ◌+◌, ◌*◌, refl, List, arith, hi_byte, get_or, drop}
use esphome_hcpbridge.State.{set_goto_position, set_link, nothing}
use esphome_hcpbridge.Hcp2.Codec.{Hcp2Codec, rd16, reg_cmd_base}
use esphome_hcpbridge.Hcp2.Commands.{stop_door}
use esphome_hcpbridge.Hcp2.Watch.{rearm_lost_command, sync_counter, advance_counter}
use esphome_hcpbridge.Hcp2.Poll.{arm_identity_request, on_request_hook}
use esphome_hcpbridge.Hcp2.Broadcast.{check_goto_target}
use esphome_hcpbridge.Hcp2.Identity.{
  answer_transfer, keep_firmware, keep_first_half, keep_second_half, on_identity_data,
  on_write_block_complete,
}
use esphome_hcpbridge.Hcp2.Frame.{
  on_counter_write, write_cmd, write_cmds, notice_frame, serve_read_write, on_read_write,
}
use esphome_hcpbridge.Hcp2.Changed.{Quiet, then-Quiet, Quiet-on_request_hook}

Quiet-sync_counter :
    (c : Hcp2Codec) (counter_byte command : ℕ) → Quiet c (sync_counter c counter_byte command)
unfolding sync_counter rearm_lost_command
Quiet-sync_counter c counter_byte command = ground arith

Quiet-write_cmd : (c : Hcp2Codec) (i val : ℕ) → Quiet c (write_cmd c i val)
unfolding write_cmd on_counter_write
Quiet-write_cmd c i val = ground arith

Quiet-write_cmds :
    (left i : ℕ) (wdata : List ℕ) (c : Hcp2Codec) → Quiet c (write_cmds left i wdata c)
unfolding write_cmds
Quiet-write_cmds zero i wdata c = λ same. (same, refl, refl)
Quiet-write_cmds (suc left) i wdata c =
    let next = write_cmd c i (rd16 wdata (2 * i)) in
    then-Quiet c next (write_cmds left (i + 1) wdata next)
      (Quiet-write_cmds left (i + 1) wdata next) (Quiet-write_cmd c i (rd16 wdata (2 * i)))

Quiet-on_identity_data :
    (c : Hcp2Codec) (now counter_byte sub_code count : ℕ)
    → Quiet c (on_identity_data c now counter_byte sub_code count).0
unfolding on_identity_data keep_firmware keep_first_half keep_second_half arm_identity_request
Quiet-on_identity_data c now counter_byte sub_code count = ground arith

Quiet-on_write_block_complete :
    (c : Hcp2Codec) (now addr count : ℕ) → Quiet c (on_write_block_complete c now addr count)
unfolding on_write_block_complete answer_transfer
Quiet-on_write_block_complete c now addr count = ground (
  arith,
  Quiet-on_identity_data c now (hi_byte (get_or c.reg_cmd 0 0)) (hi_byte (get_or c.reg_cmd 1 0))
      count,
)

Quiet-serve_read_write :
    (c : Hcp2Codec) (now : ℕ) (req : List ℕ) (read_cnt write_cnt : ℕ)
    → Quiet c (serve_read_write c now req read_cnt write_cnt).0
unfolding serve_read_write advance_counter
Quiet-serve_read_write c now req read_cnt write_cnt =
    let wdata = drop 11 req in
    let synced = sync_counter c (get_or wdata 0 0) (get_or wdata 1 0) in
    let bare = record synced { last_sent_command = nothing } in
    let hooked = on_request_hook bare now 0x17 read_cnt write_cnt (get_or wdata 1 0) in
    let written = write_cmds write_cnt 0 wdata hooked in
    then-Quiet c written (on_write_block_complete written now reg_cmd_base write_cnt)
      (Quiet-on_write_block_complete written now reg_cmd_base write_cnt)
      (then-Quiet c hooked written (Quiet-write_cmds write_cnt 0 wdata hooked) (
        then-Quiet c bare hooked
          (Quiet-on_request_hook bare now 0x17 read_cnt write_cnt (get_or wdata 1 0))
          (Quiet-sync_counter c (get_or wdata 0 0) (get_or wdata 1 0))))

pub Quiet-on_read_write :
    (c : Hcp2Codec) (now : ℕ) (req : List ℕ) (len : ℕ) → Quiet c (on_read_write c now req len).0
unfolding on_read_write
Quiet-on_read_write c now req len =
    ground (arith, Quiet-serve_read_write c now req (rd16 req 4) (rd16 req 8))

pub Quiet-notice_frame : (c : Hcp2Codec) (now : ℕ) → Quiet c (notice_frame c now)
unfolding notice_frame set_link
Quiet-notice_frame c now = ground arith

pub Quiet-check_goto_target : (c : Hcp2Codec) (now : ℕ) → Quiet c (check_goto_target c now)
unfolding check_goto_target stop_door set_goto_position
Quiet-check_goto_target c now = ground arith

-- ===== src/Hcp2/Presses.antt =====
-- The part of the codec that decides what is pressed: the slot, what is watched, what is armed to
-- be repeated, and how often. Everything but the command path leaves it alone.
use esphome_hcpbridge.Base.{
  ℕ, zero, suc, ◌+◌, ◌*◌, ◌≡◌, refl, ◌∙◌, Bool, List, arith, hi_byte, get_or,
}
use esphome_hcpbridge.State.{HoermannCommand}
use esphome_hcpbridge.Capabilities.{HcpCapabilities}
use esphome_hcpbridge.Hcp2.Codec.{Hcp2Codec, rd16}
use esphome_hcpbridge.Hcp2.Watch.{advance_counter}
use esphome_hcpbridge.Hcp2.Poll.{
  arm_identity_request, start_identity, ask_identity, mark_registered, report_unknown_shape,
}
use esphome_hcpbridge.Hcp2.Broadcast.{
  on_door_position_changed, on_current_state_changed, on_reg_seven_changed, write_bcast,
  write_bcasts,
}
use esphome_hcpbridge.Hcp2.Identity.{
  answer_transfer, keep_firmware, keep_first_half, keep_second_half, on_identity_data,
  on_write_block_complete,
}
use esphome_hcpbridge.Hcp2.Frame.{on_counter_write, write_cmd, write_cmds, notice_frame}

pub record Presses : Type 0 where
  pub slot : HoermannCommand
  pub stamp : ℕ
  pub cancelled : Bool
  pub awaited : HoermannCommand
  pub armed : HoermannCommand
  pub last : HoermannCommand
  pub confirms : ℕ
  pub resends : ℕ
  pub limits : HcpCapabilities
  pub pausing : Bool

abbrev pub presses : Hcp2Codec → Presses
presses c = record {
  slot = c.next_command;
  stamp = c.next_command_on;
  cancelled = c.cancel_watch;
  awaited = c.awaited_command;
  armed = c.repeat_command;
  last = c.last_sent_command;
  confirms = c.confirm_repeats;
  resends = c.repeats_sent;
  limits = c.caps;
  pausing = c.pause_requested;
}

pub presses-start_identity : (c : Hcp2Codec) → presses (start_identity c) ≡ presses c
unfolding start_identity
presses-start_identity c = ground arith

pub presses-ask_identity : (c : Hcp2Codec) (now : ℕ) → presses (ask_identity c now) ≡ presses c
unfolding ask_identity
presses-ask_identity c now = ground arith

pub presses-mark_registered : (c : Hcp2Codec) → presses (mark_registered c) ≡ presses c
unfolding mark_registered
presses-mark_registered c = ground arith

pub presses-report_unknown_shape :
    (c : Hcp2Codec) (now fc c1 c2 : ℕ) → presses (report_unknown_shape c now fc c1 c2) ≡ presses c
unfolding report_unknown_shape
presses-report_unknown_shape c now fc c1 c2 = ground arith

pub presses-notice_frame : (c : Hcp2Codec) (now : ℕ) → presses (notice_frame c now) ≡ presses c
unfolding notice_frame
presses-notice_frame c now = ground arith

pub presses-advance_counter : (c : Hcp2Codec) → presses (advance_counter c) ≡ presses c
unfolding advance_counter
presses-advance_counter c = refl

presses-write_cmd : (c : Hcp2Codec) (i val : ℕ) → presses (write_cmd c i val) ≡ presses c
unfolding write_cmd on_counter_write
presses-write_cmd c i val = ground arith

pub presses-write_cmds :
    (left i : ℕ) (wdata : List ℕ) (c : Hcp2Codec) → presses (write_cmds left i wdata c) ≡ presses c
unfolding write_cmds
presses-write_cmds zero i wdata c = refl
presses-write_cmds (suc left) i wdata c =
    presses-write_cmds left (i + 1) wdata (write_cmd c i (rd16 wdata (2 * i)))
    ∙ presses-write_cmd c i (rd16 wdata (2 * i))

presses-on_identity_data :
    (c : Hcp2Codec) (now counter_byte sub_code count : ℕ)
    → presses (on_identity_data c now counter_byte sub_code count).0 ≡ presses c
unfolding on_identity_data keep_firmware keep_first_half keep_second_half arm_identity_request
presses-on_identity_data c now counter_byte sub_code count = ground arith

pub presses-on_write_block_complete :
    (c : Hcp2Codec) (now addr count : ℕ)
    → presses (on_write_block_complete c now addr count) ≡ presses c
unfolding on_write_block_complete answer_transfer
presses-on_write_block_complete c now addr count = ground (
  arith,
  presses-on_identity_data c now (hi_byte (get_or c.reg_cmd 0 0)) (hi_byte (get_or c.reg_cmd 1 0))
      count,
)

pub presses-write_bcast : (c : Hcp2Codec) (i val : ℕ) → presses (write_bcast c i val) ≡ presses c
unfolding write_bcast on_door_position_changed on_current_state_changed on_reg_seven_changed
presses-write_bcast c i val = ground arith

pub presses-write_bcasts :
    (left i : ℕ) (wdata : List ℕ) (c : Hcp2Codec)
    → presses (write_bcasts left i wdata c) ≡ presses c
unfolding write_bcasts
presses-write_bcasts zero i wdata c = refl
presses-write_bcasts (suc left) i wdata c =
    presses-write_bcasts left (i + 1) wdata (write_bcast c i (rd16 wdata (2 * i)))
    ∙ presses-write_bcast c i (rd16 wdata (2 * i))

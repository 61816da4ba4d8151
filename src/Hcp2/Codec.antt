-- ===== src/Hcp2/Codec.antt =====
-- The members of `Hcp2Codec`, its constants, and the small functions on them. Each function of the
-- codec takes the codec and returns it; the atomics are plain fields of one step.
use esphome_hcpbridge.Base.{
  ℕ, ◌+◌, ◌*◌, ◌^◌, Bool, true, false, List, [], ◌∷◌, if◌then◌else◌, get_or, set, replicate, ℤ,
  negsuc, hi_byte, lo_byte,
}
use esphome_hcpbridge.State.{
  HoermannCommand, nothing, same_command, HoermannState, initial_state, ident_serial_len,
}
use esphome_hcpbridge.Capabilities.{HcpCapabilities, hcp2_capabilities}
use esphome_hcpbridge.Events.{HcpEvent}
use esphome_hcpbridge.Ring.{HcpEventRing, empty_ring, push}

abbrev pub reg_cmd_base : ℕ
reg_cmd_base = 0x9c41

abbrev pub reg_cmd_count : ℕ
reg_cmd_count = 9

abbrev pub reg_bcast_base : ℕ
reg_bcast_base = 0x9d31

abbrev pub reg_bcast_count : ℕ
reg_bcast_count = 9

abbrev pub reg_resp_base : ℕ
reg_resp_base = 0x9cb9

abbrev pub reg_resp_count : ℕ
reg_resp_count = 8

abbrev pub ident_req_serial : ℕ
ident_req_serial = 0x05

abbrev pub ident_req_firmware : ℕ
ident_req_firmware = 0x06

abbrev pub ident_sub_serial : ℕ
ident_sub_serial = 0x0c

abbrev pub ident_sub_firmware : ℕ
ident_sub_firmware = 0x0d

abbrev pub ident_retry_ms : ℕ
ident_retry_ms = 30000

abbrev pub ident_max_attempts : ℕ
ident_max_attempts = 3

abbrev pub ident_sub_pause_ack : ℕ
ident_sub_pause_ack = 0x19

abbrev pub unknown_shape_repeat_ms : ℕ
unknown_shape_repeat_ms = 10000

abbrev pub cmd_status : ℕ
cmd_status = 0x03

abbrev pub resp_status : ℕ
resp_status = 0x01

abbrev pub resp_request : ℕ
resp_request = 0x22

abbrev pub resp_pause : ℕ
resp_pause = 0x29

abbrev pub resp_ack : ℕ
resp_ack = 0xfd

abbrev pub resp_nak : ℕ
resp_nak = 0xfe

pub record Hcp2Codec : Type 0 where
  pub state : HoermannState
  pub goto_check_pending : Bool
  pub events : HcpEventRing
  pub caps : HcpCapabilities
  pub tx_counter : ℕ
  pub tx_counter_prev : ℕ
  pub tx_counter_valid : Bool
  pub last_sent_command : HoermannCommand
  pub unknown_seen : Bool
  pub unknown_fc : ℕ
  pub unknown_c1 : ℕ
  pub unknown_c2 : ℕ
  pub unknown_logged_on : ℕ
  pub reg_cmd : List ℕ
  pub reg_bcast : List ℕ
  pub reg_resp : List ℕ
  pub next_command : HoermannCommand
  pub next_command_on : ℕ
  pub goto_request : ℤ
  pub cancel_watch : Bool
  pub awaited_command : HoermannCommand
  pub repeat_command : HoermannCommand
  pub awaited_since : ℕ
  pub last_sent_at : ℕ
  pub confirm_repeats : ℕ
  pub repeats_sent : ℕ
  pub state_writes : ℕ
  pub state_writes_when_sent : ℕ
  pub identity_wanted : ℕ
  pub identity_attempts : ℕ
  pub identity_asked_on : ℕ
  pub identity_asked : Bool
  pub identity_started : Bool
  pub ident_serial : List ℕ
  pub ident_firmware : List ℕ
  pub ident_serial_ready : Bool
  pub ident_firmware_ready : Bool
  pub serial_buf : List ℕ
  pub serial_first_half_seen : Bool
  pub pause_requested : Bool
  pub pause_confirmed : Bool
  pub last_frame_on : ℕ

unfoldable pub initial_codec : Hcp2Codec
initial_codec = record {
  state = initial_state;
  goto_check_pending = false;
  events = empty_ring;
  caps = hcp2_capabilities;
  tx_counter = 0;
  tx_counter_prev = 0;
  tx_counter_valid = false;
  last_sent_command = nothing;
  unknown_seen = false;
  unknown_fc = 0;
  unknown_c1 = 0;
  unknown_c2 = 0;
  unknown_logged_on = 0;
  reg_cmd = replicate reg_cmd_count 0;
  reg_bcast = replicate reg_bcast_count 0;
  reg_resp = replicate reg_resp_count 0;
  next_command = nothing;
  next_command_on = 0;
  goto_request = negsuc 0;
  cancel_watch = false;
  awaited_command = nothing;
  repeat_command = nothing;
  awaited_since = 0;
  last_sent_at = 0;
  confirm_repeats = 0;
  repeats_sent = 0;
  state_writes = 0;
  state_writes_when_sent = 0;
  identity_wanted = 0;
  identity_attempts = 0;
  identity_asked_on = 0;
  identity_asked = false;
  identity_started = false;
  ident_serial = [];
  ident_firmware = [];
  ident_serial_ready = false;
  ident_firmware_ready = false;
  serial_buf = replicate ident_serial_len 0;
  serial_first_half_seen = false;
  pause_requested = false;
  pause_confirmed = false;
  last_frame_on = 0;
}

-- `this->events.push(event, a, b, at_ms)`.
abbrev pub push_event : Hcp2Codec → HcpEvent → ℕ → ℕ → ℕ → Hcp2Codec
push_event c e a b at_ms = record c {
  events = push c.events (record { event = e; a = a; b = b; at_ms = at_ms });
}

-- `this->regResp[i] = v`.
abbrev pub put_resp : Hcp2Codec → ℕ → ℕ → Hcp2Codec
put_resp c i v = record c { reg_resp = set c.reg_resp i v }

-- `clearIfStill`: a compare-and-exchange of the slot.
unfoldable pub clear_if_still : Hcp2Codec → HoermannCommand → Hcp2Codec
clear_if_still c taken =
    if same_command c.next_command taken then record c { next_command = nothing } else c

-- `rd16` of two bytes: their bits do not overlap.
abbrev pub rd16 : List ℕ → ℕ → ℕ
rd16 bytes at = get_or bytes at 0 * 2 ^ 8 + get_or bytes (at + 1) 0

-- `wr16`.
abbrev pub wr16 : ℕ → List ℕ
wr16 v = lo_byte (hi_byte v) ∷ lo_byte v ∷ []

-- `requestPause`, `endPause` and `dropQueuedCommand`.
unfoldable pub request_pause : Hcp2Codec → Hcp2Codec
request_pause c = record c { pause_requested = true; pause_confirmed = false }

unfoldable pub end_pause : Hcp2Codec → Hcp2Codec
end_pause c = record c { pause_requested = false }

unfoldable pub drop_queued_command : Hcp2Codec → Hcp2Codec
drop_queued_command c = record c { next_command = nothing }

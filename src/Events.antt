-- ===== src/Events.antt =====
-- components/hcpbridge/hcp_events.h and hcp_events.cpp: the events that the protocol path records,
-- and the table that turns an event into a sentence.
use Prim.Native.String.{String}
use esphome_hcpbridge.Base.{ℕ, Bool, true, false}

pub data HcpEvent : Type 0 where
  no_event : HcpEvent
  unanswerable_frame wrong_register_block wrong_broadcast_block unknown_transfer_sub : HcpEvent
  command_sent command_repeated command_stale command_repeat_dropped : HcpEvent
  command_unanswered command_resent command_resend_gave_up : HcpEvent
  busscan empty_command state_changed unknown_state relay_register : HcpEvent
  identity_unanswered link_lost_command_dropped : HcpEvent
  command_refused_no_link command_refused_slot_busy : HcpEvent
  identity_firmware identity_serial : HcpEvent

pub record HcpEventEntry : Type 0 where
  pub event : HcpEvent
  pub a : ℕ
  pub b : ℕ
  pub at_ms : ℕ

abbrev pub no_entry : HcpEventEntry
no_entry = record { event = no_event; a = 0; b = 0; at_ms = 0 }

pub data HcpArgKind : Type 0 where
  numbers a_command : HcpArgKind

pub record Description : Type 0 where
  pub format : String
  pub trouble : Bool
  pub kind : HcpArgKind

note : String → HcpArgKind → Description
note text kind = record { format = text; trouble = false; kind = kind }

warning : String → HcpArgKind → Description
warning text kind = record { format = text; trouble = true; kind = kind }

-- The rows of DESCRIPTIONS, in the order of the enumerators.
unfoldable pub describe : HcpEvent → Description
unfolding note warning
describe no_event = note "nothing" numbers
describe unanswerable_frame = warning "unanswerable frame: read %u registers, wrote %u" numbers
describe wrong_register_block =
    warning "frame names register block %04x/%04x, which is not ours" numbers
describe wrong_broadcast_block =
    note "broadcast names register block %04x, which is not ours" numbers
describe unknown_transfer_sub =
    warning "transfer with sub code %02x, which nothing here answers" numbers
describe command_sent = note "command %s went out as %04x" a_command
describe command_repeated = note "repeating %s" a_command
describe command_stale = warning "dropping %s, the drive did not collect it in time" a_command
describe command_repeat_dropped = note "dropping a repeat the door has moved past" numbers
describe command_unanswered = warning "the drive did not act on %s" a_command
describe command_resent = note "the answer never arrived, sending %s again" a_command
describe command_resend_gave_up = warning "the drive keeps repeating its counter, giving up" numbers
describe busscan = note "registering on the bus" numbers
describe empty_command = note "a poll carrying no command" numbers
describe state_changed = note "the drive reports state %02x" numbers
describe unknown_state = warning "state %02x is one nothing here maps" numbers
describe relay_register = note "relay register now %04x" numbers
describe identity_unanswered = warning "the drive never answered identity request %02x" numbers
describe link_lost_command_dropped =
    warning "the link went away, dropping a command nobody is waiting on" numbers
describe command_refused_no_link = warning "%s not sent, the drive is not talking to us" a_command
describe command_refused_slot_busy =
    warning "%s dropped, the drive has not collected the last one yet" a_command
describe identity_firmware = note "the drive's firmware version arrived" numbers
describe identity_serial = note "the drive's serial number arrived" numbers

unfoldable pub hcp_event_format : HcpEvent → String
unfolding describe
hcp_event_format e = (describe e).format

unfoldable pub hcp_event_arg_kind : HcpEvent → HcpArgKind
unfolding describe
hcp_event_arg_kind e = (describe e).kind

unfoldable pub hcp_event_is_trouble : HcpEvent → Bool
unfolding describe
hcp_event_is_trouble e = (describe e).trouble

-- ===== src/Hcp2/Identity.antt =====
-- The payload transfers of the drive: its serial number and firmware version, the pause that it
-- acknowledges, and what each is answered with.
use esphome_hcpbridge.Base.{
  ℕ, zero, suc, ◌+◌, ◌-◌, ◌*◌, ◌%◌, ◌^◌, Bool, true, false, not, ◌&&◌, ◌||◌, ltb, leb, ◌==◌,
  if◌then◌else◌, hi_byte, lo_byte, List, [], ◌∷◌, get_or, set, bit_or,
}
use esphome_hcpbridge.State.{
  ident_serial_len, ident_firmware_len, set_serial_number, set_firmware_version,
}
use esphome_hcpbridge.Events.{identity_firmware, identity_serial, unknown_transfer_sub}
use esphome_hcpbridge.Hcp2Frame.{slave_id}
use esphome_hcpbridge.Hcp2.Codec.{
  Hcp2Codec, push_event, reg_cmd_base, ident_req_serial, ident_req_firmware, ident_sub_serial,
  ident_sub_firmware, ident_sub_pause_ack, resp_ack, resp_nak,
}
use esphome_hcpbridge.Hcp2.Poll.{arm_identity_request}

-- SERIAL_FIRST_REGS and SERIAL_SECOND_REGS.
abbrev pub serial_first_regs : ℕ
serial_first_regs = 7

abbrev pub serial_second_regs : ℕ
serial_second_regs = 6

-- `copyRegsToBytes`: the bytes of `count` registers from `first` on, high byte first.
unfoldable pub copy_regs_to_bytes : List ℕ → ℕ → ℕ → List ℕ
copy_regs_to_bytes regs first zero = []
copy_regs_to_bytes regs first (suc count) =
    let v = get_or regs first 0 in hi_byte v ∷ lo_byte v ∷ copy_regs_to_bytes regs (first + 1) count

-- Bytes stored into a buffer from an index on.
unfoldable pub overwrite : List ℕ → ℕ → List ℕ → List ℕ
overwrite buf at [] = buf
overwrite buf at (b ∷ bs) = overwrite (set buf at b) (at + 1) bs

abbrev pub is_printable : ℕ → Bool
is_printable b = leb 0x20 b && leb b 0x7e

-- The first loop of `identityToText`: printable bytes, while there is room.
unfoldable pub printable_front : ℕ → List ℕ → List ℕ
printable_front zero bytes = []
printable_front (suc room) [] = []
printable_front (suc room) (b ∷ bs) = if is_printable b then b ∷ printable_front room bs else []

-- The second loop: spaces are cut off the end.
unfoldable pub trim_end : List ℕ → List ℕ
trim_end [] = []
trim_end (b ∷ bs) = elim (trim_end bs) [
  | [] ↦ if b == 0x20 then [] else b ∷ []
  | x ∷ xs ↦ b ∷ x ∷ xs
]

-- `identityToText` into a buffer of `out_size` bytes; the closing NUL is left out.
unfoldable pub identity_to_text : List ℕ → ℕ → List ℕ
unfolding printable_front trim_end
identity_to_text bytes out_size = trim_end (printable_front (out_size - 1) bytes)

unfoldable pub answer_transfer : Hcp2Codec → ℕ → ℕ → Hcp2Codec
answer_transfer c counter_byte code = record c {
  reg_resp =
      set
        (set (set (set (set (set (set (set c.reg_resp 2 0) 3 0) 4 0) 5 0) 6 0) 7 0) 0
          (counter_byte % 128 * 2 ^ 8))
        1 (bit_or 0x0400 code);
}

-- The firmware version has arrived whole.
unfoldable pub keep_firmware : Hcp2Codec → ℕ → Hcp2Codec
keep_firmware c now =
    push_event
      (record c {
        ident_firmware =
            identity_to_text (copy_regs_to_bytes c.reg_cmd 2 6) (ident_firmware_len + 1);
        ident_firmware_ready = true;
        identity_wanted = 0;
      })
      identity_firmware 0 0 now

-- The first half of the serial number.
unfoldable pub keep_first_half : Hcp2Codec → ℕ → Hcp2Codec
keep_first_half c now = record c {
  serial_buf = overwrite c.serial_buf 0 (copy_regs_to_bytes c.reg_cmd 2 serial_first_regs);
  serial_first_half_seen = true;
  identity_asked_on = now;
  identity_asked = true;
}

-- The second half, which completes it and asks for the firmware version.
unfoldable pub keep_second_half : Hcp2Codec → ℕ → Hcp2Codec
keep_second_half c now =
    let whole = overwrite c.serial_buf 14 (copy_regs_to_bytes c.reg_cmd 2 serial_second_regs) in
    arm_identity_request
      (push_event
        (record c {
          serial_buf = whole;
          serial_first_half_seen = false;
          ident_serial = identity_to_text whole (ident_serial_len + 1);
          ident_serial_ready = true;
        })
        identity_serial 0 0 now)
      ident_req_firmware

-- The codec after, and whether the payload was kept.
unfoldable pub on_identity_data : Hcp2Codec → ℕ → ℕ → ℕ → ℕ → Hcp2Codec × Bool
on_identity_data c now counter_byte sub_code count =
    let answers = if sub_code == ident_sub_serial then ident_req_serial else ident_req_firmware in
    let payload_regs = count - 2 in
    let first_half = leb 0x80 counter_byte in
    if not (c.identity_wanted == answers)
    then (c, false)
    else (if sub_code == ident_sub_firmware && leb 6 payload_regs
        then (keep_firmware c now, true)
        else (if sub_code == ident_sub_serial
            then (if first_half && leb serial_first_regs payload_regs
                then (keep_first_half c now, true)
                else (if not first_half
                      && c.serial_first_half_seen
                      && leb serial_second_regs payload_regs
                    then (keep_second_half c now, true)
                    else (c, false)))
            else (c, false)))

-- The address that a pause acknowledgement names: it sits astride two registers.
abbrev pub named_address : Hcp2Codec → ℕ
named_address c = lo_byte (get_or c.reg_cmd 1 0) * 2 ^ 8 + hi_byte (get_or c.reg_cmd 2 0)

unfoldable pub on_write_block_complete : Hcp2Codec → ℕ → ℕ → ℕ → Hcp2Codec
on_write_block_complete c now addr count =
    let command = lo_byte (get_or c.reg_cmd 0 0) in
    let counter_byte = hi_byte (get_or c.reg_cmd 0 0) in
    let sub_code = hi_byte (get_or c.reg_cmd 1 0) in
    let (kept, ok) = on_identity_data c now counter_byte sub_code count in
    if not (addr == reg_cmd_base) || ltb count 2 || not (command == 0x04)
    then c
    else (if sub_code == ident_sub_pause_ack
        then answer_transfer
            (if leb 3 count && named_address c == slave_id
              then record c { pause_confirmed = true }
              else c)
            counter_byte resp_ack
        else (if sub_code == ident_sub_serial || sub_code == ident_sub_firmware
            then answer_transfer kept counter_byte (if ok then resp_ack else resp_nak)
            else answer_transfer (push_event c unknown_transfer_sub sub_code 0 now) counter_byte
                resp_nak))

-- The texts go over to the state when their flag is up.
unfoldable pub publish_identity : Hcp2Codec → Hcp2Codec
publish_identity c =
    let serial =
      if c.ident_serial_ready then set_serial_number c.state c.ident_serial else c.state in
    let firmware =
      if c.ident_firmware_ready then set_firmware_version serial c.ident_firmware else serial in
    record c { ident_serial_ready = false; ident_firmware_ready = false; state = firmware }

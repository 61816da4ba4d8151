-- ===== src/Hcp2/Frame.antt =====
-- `onFrame`: one frame as it came off the wire, and the answer to it. The answer is the list of its
-- bytes, empty where the code returns 0.
use esphome_hcpbridge.Base.{
  ℕ, zero, suc, ◌+◌, ◌-◌, ◌*◌, ◌%◌, ◌^◌, Bool, not, ◌&&◌, ◌||◌, ltb, ◌==◌, if◌then◌else◌, hi_byte,
  lo_byte, List, [], ◌∷◌, ◌++◌, get_or, set, drop, bit_or, u8,
}
use esphome_hcpbridge.State.{nothing, same_link, never_seen, enumerating, set_link}
use esphome_hcpbridge.Events.{wrong_register_block, wrong_broadcast_block}
use esphome_hcpbridge.Hcp2Frame.{hcp2_validate, hcp2_finish, hcp2_max_frame}
use esphome_hcpbridge.Hcp2.Codec.{
  Hcp2Codec, push_event, rd16, wr16, reg_resp_base, reg_cmd_base, reg_resp_count, reg_cmd_count,
  reg_bcast_base, reg_bcast_count,
}
use esphome_hcpbridge.Hcp2.Watch.{sync_counter, advance_counter}
use esphome_hcpbridge.Hcp2.Poll.{on_request_hook}
use esphome_hcpbridge.Hcp2.Broadcast.{write_bcasts, check_goto_target}
use esphome_hcpbridge.Hcp2.Identity.{on_write_block_complete}

-- `val & 0x7F00` and `(val & 0x00FF) << 8`, or-ed into the first two answer registers.
unfoldable pub on_counter_write : Hcp2Codec → ℕ → Hcp2Codec
on_counter_write c val =
    let r0 = bit_or (get_or c.reg_resp 0 0) (hi_byte val % 128 * 2 ^ 8) in
    let r1 = bit_or (get_or c.reg_resp 1 0) (lo_byte val * 2 ^ 8) in
    record c { reg_resp = set (set c.reg_resp 0 r0) 1 r1 }

-- The hook on the first register runs before the store.
unfoldable pub write_cmd : Hcp2Codec → ℕ → ℕ → Hcp2Codec
write_cmd c i val =
    let hooked = if i == 0 then on_counter_write c val else c in
    record hooked { reg_cmd = set hooked.reg_cmd i val }

-- The loop over the written registers.
unfoldable pub write_cmds : ℕ → ℕ → List ℕ → Hcp2Codec → Hcp2Codec
write_cmds zero i wdata c = c
write_cmds (suc left) i wdata c = write_cmds left (i + 1) wdata (write_cmd c i (rd16 wdata (2 * i)))

-- The loop that writes the answer registers, from the first on.
unfoldable pub resp_bytes : ℕ → List ℕ → List ℕ
resp_bytes zero regs = []
resp_bytes (suc left) [] = []
resp_bytes (suc left) (r ∷ regs) = wr16 r ++ resp_bytes left regs

-- Every validated frame is a sign of life.
unfoldable pub notice_frame : Hcp2Codec → ℕ → Hcp2Codec
notice_frame c now = record c {
  last_frame_on = if now == 0 then 1 else now;
  state = if same_link c.state.link never_seen then set_link c.state enumerating else c.state;
}

-- The fields of a read/write frame pass all of its tests.
abbrev pub read_write_fits : ℕ → ℕ → ℕ → ℕ → ℕ → Bool
read_write_fits len read_addr read_cnt write_cnt byte_cnt = not (
    ltb read_cnt 1
    || ltb reg_resp_count read_cnt
    || ltb write_cnt 1
    || ltb (0xffff - read_addr) read_cnt
    || not (byte_cnt == 2 * write_cnt)
    || ltb byte_cnt 2
    || ltb (2 * reg_cmd_count) byte_cnt
    || ltb len (11 + byte_cnt))

-- A read/write frame that passed its tests.
unfoldable pub serve_read_write : Hcp2Codec → ℕ → List ℕ → ℕ → ℕ → Hcp2Codec × List ℕ
serve_read_write c now req read_cnt write_cnt =
    let wdata = drop 11 req in
    let synced = sync_counter c (get_or wdata 0 0) (get_or wdata 1 0) in
    let hooked =
      on_request_hook (record synced { last_sent_command = nothing }) now 0x17 read_cnt write_cnt
        (get_or wdata 1 0) in
    let written = write_cmds write_cnt 0 wdata hooked in
    let done = on_write_block_complete written now reg_cmd_base write_cnt in
    (
      advance_counter done,
      hcp2_finish (get_or req 0 0 ∷ 0x17 ∷ u8 (read_cnt * 2) ∷ resp_bytes read_cnt done.reg_resp)
          hcp2_max_frame,
    )

unfoldable pub on_read_write : Hcp2Codec → ℕ → List ℕ → ℕ → Hcp2Codec × List ℕ
on_read_write c now req len =
    let read_addr = rd16 req 2 in
    let read_cnt = rd16 req 4 in
    let write_addr = rd16 req 6 in
    let write_cnt = rd16 req 8 in
    let byte_cnt = get_or req 10 0 in
    if ltb len 11
    then (c, [])
    else (if not (read_addr == reg_resp_base) || not (write_addr == reg_cmd_base)
        then (push_event c wrong_register_block read_addr write_addr now, [])
        else (if read_write_fits len read_addr read_cnt write_cnt byte_cnt
            then serve_read_write c now req read_cnt write_cnt
            else (c, [])))

-- The fields of a broadcast pass all of its tests.
abbrev pub broadcast_fits : ℕ → ℕ → ℕ → Bool
broadcast_fits len cnt byte_cnt = not (
    ltb cnt 1
    || not (byte_cnt == 2 * cnt)
    || ltb byte_cnt 2
    || ltb (2 * reg_bcast_count) byte_cnt
    || ltb len (7 + byte_cnt))

unfoldable pub on_broadcast : Hcp2Codec → ℕ → List ℕ → ℕ → Hcp2Codec × List ℕ
on_broadcast c now req len =
    let addr = rd16 req 2 in
    let cnt = rd16 req 4 in
    let byte_cnt = get_or req 6 0 in
    let hooked = on_request_hook c now 0x10 cnt 0 0 in
    let written = write_bcasts cnt 0 (drop 7 req) hooked in
    if ltb len 7
    then (c, [])
    else (if not (addr == reg_bcast_base)
        then (push_event c wrong_broadcast_block addr 0 now, [])
        else (if broadcast_fits len cnt byte_cnt
            then (
              check_goto_target written now,
              hcp2_finish (get_or req 0 0 ∷ 0x10 ∷ (wr16 addr ++ wr16 cnt)) hcp2_max_frame,
            )
            else (c, [])))

-- The frame of `len` bytes without its checksum.
unfoldable pub on_valid_frame : Hcp2Codec → ℕ → List ℕ → ℕ → Hcp2Codec × List ℕ
on_valid_frame c now req len =
    let alive = notice_frame c now in
    let fc = get_or req 1 0 in
    if get_or req 0 0 == 0x00 && fc == 0x17
    then (alive, [])
    else (if fc == 0x17
        then on_read_write alive now req len
        else (if fc == 0x10 then on_broadcast alive now req len else (alive, [])))

unfoldable pub on_frame : Hcp2Codec → ℕ → List ℕ → Hcp2Codec × List ℕ
on_frame c now raw =
    let len = hcp2_validate raw in if len == 0 then (c, []) else on_valid_frame c now raw len

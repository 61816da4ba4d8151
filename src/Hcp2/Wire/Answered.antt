-- ===== src/Hcp2/Wire/Answered.antt =====
-- The answer to a read/write frame of hcp2_codec.cpp presses nothing that is not noted.
use esphome_hcpbridge.Base.{
  ℕ, zero, suc, ◌+◌, ◌*◌, ◌^◌, ◌≤◌, ◌≡◌, refl, subst, ap, ap₂, ◌∙◌, true, false, not, ◌||◌, ◌==◌,
  List, arith, get_or, set, length, length-set, get_or-set_ne, u16, inl, inr, Bool-cases, hi_byte,
  lo_byte, drop, if◌then◌else◌,
}
use esphome_hcpbridge.State.{HoermannCommand, nothing, is_nothing}
use esphome_hcpbridge.Hcp2.Codec.{Hcp2Codec, rd16, reg_cmd_base}
use esphome_hcpbridge.Hcp2.Watch.{sync_counter, rearm_lost_command, advance_counter}
use esphome_hcpbridge.Hcp2.Poll.{arm_identity_request, on_request_hook}
use esphome_hcpbridge.Hcp2.Identity.{
  answer_transfer, keep_firmware, keep_first_half, keep_second_half, on_identity_data,
  on_write_block_complete,
}
use esphome_hcpbridge.Hcp2.Frame.{on_counter_write, write_cmd, write_cmds}
use esphome_hcpbridge.Hcp2.Wire.{holds_key}
use esphome_hcpbridge.Hcp2.Wire.{carries, carries-registers}
use esphome_hcpbridge.Hcp2.Wire.Registers.{IsWide, keyed, IsWide-set, IsNoted, keyed_words}
use esphome_hcpbridge.Hcp2.Frame.{serve_read_write}
use esphome_hcpbridge.Hcp2.Codec.{push_event}
use esphome_hcpbridge.Base.{bit_or, ltb, ◌%◌}
use esphome_hcpbridge.Events.{unknown_transfer_sub}
use esphome_hcpbridge.Hcp2.Codec.{
  ident_sub_pause_ack, ident_sub_serial, ident_sub_firmware, resp_ack, resp_nak,
}
use esphome_hcpbridge.Hcp2.Presses.{Presses, presses-write_cmds}
use esphome_hcpbridge.Hcp2.Wire.Served.{branch, of_noted, IsServed, on_request_hook-IsServed}

-- The two words are left alone.
abbrev IsAside : List ℕ → List ℕ → Type 0
IsAside regs after =
    (length after ≡ length regs)
    × (get_or after 2 0 ≡ get_or regs 2 0)
    × (get_or after 3 0 ≡ get_or regs 3 0)

IsAside-set :
    (regs : List ℕ) (i v : ℕ) → not (i == 2 || i == 3) ≡ true → IsAside regs (set regs i v)
IsAside-set regs i v other = (
  length-set regs i v,
  get_or-set_ne regs i 2 v 0 (λ e. ground (arith, e, other)),
  get_or-set_ne regs i 3 v 0 (λ e. ground (arith, e, other)),
)

IsAside-twice : (a b d : List ℕ) → IsAside a b → IsAside b d → IsAside a d
IsAside-twice a b d first second = (second.0 ∙ first.0, second.1 ∙ first.1, second.2 ∙ first.2)

write_cmd-IsAside : (c : Hcp2Codec) (i val : ℕ) → IsAside c.reg_resp (write_cmd c i val).reg_resp
unfolding write_cmd on_counter_write
write_cmd-IsAside c i val = elim (Bool-cases (i == 0)) [
  | inl first ↦
      rw first
        (IsAside-twice c.reg_resp _ _ (IsAside-set c.reg_resp 0 _ refl) (IsAside-set _ 1 _ refl))
  | inr other ↦ rw other (refl, refl, refl)
]

write_cmds-IsAside :
    (left i : ℕ) (wdata : List ℕ) (c : Hcp2Codec)
    → IsAside c.reg_resp (write_cmds left i wdata c).reg_resp
unfolding write_cmds
write_cmds-IsAside zero i wdata c = (refl, refl, refl)
write_cmds-IsAside (suc left) i wdata c =
    let next = write_cmd c i (rd16 wdata (2 * i)) in
    IsAside-twice c.reg_resp next.reg_resp (write_cmds left (i + 1) wdata next).reg_resp
      (write_cmd-IsAside c i (rd16 wdata (2 * i))) (write_cmds-IsAside left (i + 1) wdata next)

registers-on_identity_data :
    (c : Hcp2Codec) (now counter_byte sub_code count : ℕ)
    → (on_identity_data c now counter_byte sub_code count).0.reg_resp ≡ c.reg_resp
unfolding on_identity_data keep_firmware keep_first_half keep_second_half arm_identity_request
registers-on_identity_data c now counter_byte sub_code count = ground arith

keyed_aside : (a b : List ℕ) → IsAside a b → keyed b ≡ keyed a
keyed_aside a b aside = ap₂ (λ (v w : ℕ). holds_key (u16 v) (u16 w)) aside.1 aside.2

-- A transfer is answered with empty words.
answer_transfer-IsNoted :
    (c : Hcp2Codec) (counter_byte code : ℕ)
    → IsWide c.reg_resp
    → IsNoted (answer_transfer c counter_byte code)
unfolding answer_transfer holds_key
answer_transfer-IsNoted c counter_byte code wide =
    let blank = set (set c.reg_resp 2 0) 3 0 in
    let four = IsAside-set blank 4 0 refl in
    let five = IsAside-twice blank _ _ four (IsAside-set (set blank 4 0) 5 0 refl) in
    let six = IsAside-twice blank _ _ five (IsAside-set (set (set blank 4 0) 5 0) 6 0 refl) in
    let seven =
      IsAside-twice blank _ _ six (IsAside-set (set (set (set blank 4 0) 5 0) 6 0) 7 0 refl) in
    let cleared = set (set (set (set blank 4 0) 5 0) 6 0) 7 0 in
    let first = set cleared 0 (counter_byte % 128 * 2 ^ 8) in
    let all =
      IsAside-twice blank first (set first 1 (bit_or 0x0400 code))
        (IsAside-twice blank cleared first seven
          (IsAside-set cleared 0 (counter_byte % 128 * 2 ^ 8) refl))
        (IsAside-set first 1 (bit_or 0x0400 code) refl) in
    record {
      wide = all.0 ∙ IsWide-set _ 3 0 (IsWide-set c.reg_resp 2 0 wide);
      noted = λ bare.
          keyed_aside blank (set first 1 (bit_or 0x0400 code)) all
          ∙ keyed_words c.reg_resp 0 0 wide;
    }

on_write_block_complete-IsServed :
    (words : ℕ) (c : Hcp2Codec) (now addr count : ℕ)
    → IsServed words c
    → IsServed words (on_write_block_complete c now addr count)
unfolding on_write_block_complete
on_write_block_complete-IsServed words c now addr count served =
    let P : Hcp2Codec → Type 0 = λ d. IsServed words d in
    let counter_byte = hi_byte (get_or c.reg_cmd 0 0) in
    let sub_code = hi_byte (get_or c.reg_cmd 1 0) in
    let kept = on_identity_data c now counter_byte sub_code count in
    branch P
      (not (addr == reg_cmd_base) || ltb count 2 || not (lo_byte (get_or c.reg_cmd 0 0) == 0x04)) c
      _ (λ skipped. served)
      (λ transfer.
        branch P (sub_code == ident_sub_pause_ack) _ _
          (λ acknowledged.
            of_noted words _
              (answer_transfer-IsNoted _ counter_byte resp_ack (ground (arith, served.wide))))
          (λ identity.
            branch P (sub_code == ident_sub_serial || sub_code == ident_sub_firmware) _ _
              (λ known. of_noted words _ (
                answer_transfer-IsNoted kept.0 counter_byte (if kept.1 then resp_ack else resp_nak)
                  (rw (registers-on_identity_data c now counter_byte sub_code count) served.wide)))
              (λ unknown. of_noted words _ (
                answer_transfer-IsNoted (push_event c unknown_transfer_sub sub_code 0 now)
                  counter_byte resp_nak served.wide))))

registers-sync_counter :
    (c : Hcp2Codec) (counter_byte command : ℕ)
    → (sync_counter c counter_byte command).reg_resp ≡ c.reg_resp
unfolding sync_counter rearm_lost_command
registers-sync_counter c counter_byte command = ground arith

last-write_cmds :
    (left i : ℕ) (wdata : List ℕ) (c : Hcp2Codec)
    → (write_cmds left i wdata c).last_sent_command ≡ c.last_sent_command
last-write_cmds left i wdata c = ap (λ (p : Presses). p.last) (presses-write_cmds left i wdata c)

write_cmds-IsServed :
    (words left i : ℕ) (wdata : List ℕ) (c : Hcp2Codec)
    → IsServed words c
    → IsServed words (write_cmds left i wdata c)
write_cmds-IsServed words left i wdata c served =
    let aside = write_cmds-IsAside left i wdata c in
    record {
      wide = aside.0 ∙ served.wide;
      noted = λ long bare.
          keyed_aside c.reg_resp (write_cmds left i wdata c).reg_resp aside
          ∙ served.noted long (
              subst (λ (x : HoermannCommand). is_nothing x ≡ true) (last-write_cmds left i wdata c)
                bare);
    }

-- What a read/write frame leaves, and what its answer presses.
pub serve_read_write-noted :
    (c : Hcp2Codec) (now : ℕ) (req : List ℕ) (read_cnt write_cnt : ℕ)
    → read_cnt ≤ 8
    → IsWide c.reg_resp
    → let r = serve_read_write c now req read_cnt write_cnt in
      IsWide r.0.reg_resp × (is_nothing r.0.last_sent_command ≡ true → carries r.1 ≡ false)
unfolding serve_read_write advance_counter
serve_read_write-noted c now req read_cnt write_cnt room wide =
    let wdata = drop 11 req in
    let command = get_or wdata 1 0 in
    let synced = sync_counter c (get_or wdata 0 0) command in
    let bare = record synced { last_sent_command = nothing } in
    let hooked = on_request_hook bare now 0x17 read_cnt write_cnt command in
    let written = write_cmds write_cnt 0 wdata hooked in
    let done = on_write_block_complete written now reg_cmd_base write_cnt in
    let ready : IsWide bare.reg_resp =
      ap (λ (regs : List ℕ). length regs) (registers-sync_counter c (get_or wdata 0 0) command)
      ∙ wide in
    let served = on_write_block_complete-IsServed read_cnt written now reg_cmd_base write_cnt (
      write_cmds-IsServed read_cnt write_cnt 0 wdata hooked
        (on_request_hook-IsServed bare now read_cnt write_cnt command ready)) in
    (
      served.wide,
      λ unsent. ground (
        arith,
        served.noted,
        unsent,
        carries-registers (get_or req 0 0) read_cnt done.reg_resp room served.wide,
      ),
    )

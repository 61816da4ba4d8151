-- ===== src/Hcp2/Budget.antt =====
-- The repeat budget over whole frames: what a status poll and a read/write frame may send.
use esphome_hcpbridge.Base.{
  ◌∙◌, sym, subst, true, false, ℕ, ◌+◌, ◌≤◌, ◌≡◌, arith, List, get_or, drop,
}
use esphome_hcpbridge.State.{HoermannCommand, nothing, is_nothing}
use esphome_hcpbridge.State.Laws.{is_nothing-nothing}
use esphome_hcpbridge.Hcp2.Codec.{Hcp2Codec, reg_cmd_base}
use esphome_hcpbridge.Hcp2.Watch.{check_command_effect, sync_counter}
use esphome_hcpbridge.Hcp2.Poll.{
  honour_cancel, set_command_values_to_read, status_poll, on_request_hook, clear_status,
  start_identity, ask_identity, mark_registered, answer_pause, blank_status, answer_other,
}
use esphome_hcpbridge.Hcp2.Identity.{on_write_block_complete}
use esphome_hcpbridge.Hcp2.Frame.{write_cmds, serve_read_write}
use esphome_hcpbridge.Hcp2.Presses.{
  Presses, presses, presses-start_identity, presses-ask_identity, presses-mark_registered,
  presses-report_unknown_shape, presses-write_cmds, presses-on_write_block_complete,
  presses-advance_counter,
}
use esphome_hcpbridge.Capabilities.{HcpCapabilities}
use esphome_hcpbridge.Hcp2.Repeats.{
  IsSmall, credit, Spends, sendings, serve_loaded-credit, check_command_effect-Spends,
  honour_cancel-Spends, sync_counter-Spends,
}

-- A step whose answer may carry a command: the command is paid for.
abbrev pub Pays : Presses → Presses → Type 0
Pays p q = (sendings q + credit q ≤ credit p) × (q.limits ≡ p.limits)

last-check_command_effect :
    (c : Hcp2Codec) (now : ℕ) → (check_command_effect c now).last_sent_command ≡ c.last_sent_command
unfolding check_command_effect
last-check_command_effect c now = ground arith

last-honour_cancel : (c : Hcp2Codec) → (honour_cancel c).last_sent_command ≡ c.last_sent_command
unfolding honour_cancel
last-honour_cancel c = ground arith

-- A command that was put on a status answer is paid for by the presses that were accepted.
pub set_command_values_to_read-Pays :
    (c : Hcp2Codec) (now : ℕ)
    → IsSmall c.caps
    → is_nothing c.last_sent_command ≡ true
    → Pays (presses c) (presses (set_command_values_to_read c now))
unfolding set_command_values_to_read
set_command_values_to_read-Pays c now small l =
    let checked = check_command_effect c now in
    let watched = honour_cancel checked in
    ground (
      arith,
      check_command_effect-Spends c now small,
      honour_cancel-Spends checked,
      serve_loaded-credit watched now (
          subst (λ (x : HoermannCommand). is_nothing x ≡ true)
            (sym (ground (arith, last-check_command_effect c now, last-honour_cancel checked))) l),
    )

pub presses-status_poll :
    (c : Hcp2Codec) (now : ℕ)
    → c.pause_requested ≡ false
    → presses (status_poll c now) ≡ presses (set_command_values_to_read (clear_status c) now)
unfolding status_poll
presses-status_poll c now live =
    let served = set_command_values_to_read (clear_status c) now in
    ground (
      arith,
      presses-mark_registered (ask_identity (start_identity served) now),
      presses-ask_identity (start_identity served) now,
      presses-start_identity served,
    )

answer_pause-Pays :
    (c : Hcp2Codec)
    → is_nothing c.last_sent_command ≡ true
    → Pays (presses c) (presses (answer_pause c))
unfolding answer_pause
answer_pause-Pays c l = ground (arith, is_nothing-nothing)

status_poll-live :
    (c : Hcp2Codec) (now : ℕ)
    → IsSmall c.caps
    → is_nothing c.last_sent_command ≡ true
    → c.pause_requested ≡ false
    → Pays (presses c) (presses (status_poll c now))
status_poll-live c now small l live =
    subst (λ (p : Presses). Pays (presses c) p) (sym (presses-status_poll c now live))
      (set_command_values_to_read-Pays (clear_status c) now small l)

status_poll-held :
    (c : Hcp2Codec) (now : ℕ)
    → is_nothing c.last_sent_command ≡ true
    → c.pause_requested ≡ true
    → Pays (presses c) (presses (status_poll c now))
unfolding status_poll
status_poll-held c now l held = ground (arith, answer_pause-Pays (clear_status c) l)

status_poll-Pays :
    (c : Hcp2Codec) (now : ℕ)
    → IsSmall c.caps
    → is_nothing c.last_sent_command ≡ true
    → Pays (presses c) (presses (status_poll c now))
status_poll-Pays c now small l =
    ground (arith, status_poll-live c now small l, status_poll-held c now l)

pub presses-answer_other :
    (c : Hcp2Codec) (now fc c1 c2 : ℕ) → presses (answer_other c now fc c1 c2) ≡ presses c
unfolding answer_other
presses-answer_other c now fc c1 c2 =
    ground (arith, presses-report_unknown_shape (blank_status c) now fc c1 c2)

-- What a step costs is seen on the presses alone.
Pays-unsent :
    (c : Hcp2Codec) (p : Presses)
    → is_nothing c.last_sent_command ≡ true
    → p ≡ presses c
    → Pays (presses c) p
Pays-unsent c p l e = subst (λ (q : Presses). Pays (presses c) q) (sym e) (ground arith)

on_request_hook-Pays :
    (c : Hcp2Codec) (now fc c1 c2 command : ℕ)
    → IsSmall c.caps
    → is_nothing c.last_sent_command ≡ true
    → Pays (presses c) (presses (on_request_hook c now fc c1 c2 command))
unfolding on_request_hook
on_request_hook-Pays c now fc c1 c2 command small l =
    let other = answer_other c now fc c1 c2 in
    ground (
      arith,
      status_poll-Pays c now small l,
      Pays-unsent c (presses (mark_registered other)) l
          (presses-mark_registered other ∙ presses-answer_other c now fc c1 c2),
    )

pub presses-serve_read_write :
    (c : Hcp2Codec) (now : ℕ) (req : List ℕ) (read_cnt write_cnt : ℕ)
    → let wdata = drop 11 req in
      let synced = sync_counter c (get_or wdata 0 0) (get_or wdata 1 0) in
      presses (serve_read_write c now req read_cnt write_cnt).0
      ≡ presses (
          on_request_hook
            (record synced { last_sent_command = nothing })
            now
            0x17
            read_cnt
            write_cnt
            (get_or wdata 1 0))
unfolding serve_read_write
presses-serve_read_write c now req read_cnt write_cnt =
    let wdata = drop 11 req in
    let synced = sync_counter c (get_or wdata 0 0) (get_or wdata 1 0) in
    let hooked =
      on_request_hook (record synced { last_sent_command = nothing }) now 0x17 read_cnt write_cnt
        (get_or wdata 1 0) in
    let written = write_cmds write_cnt 0 wdata hooked in
    presses-advance_counter (on_write_block_complete written now reg_cmd_base write_cnt)
    ∙ presses-on_write_block_complete written now reg_cmd_base write_cnt
    ∙ presses-write_cmds write_cnt 0 wdata hooked

-- Clearing the note of what was sent frees no credit.
Spends-forget_last :
    (c : Hcp2Codec) → Spends (presses c) (presses (record c { last_sent_command = nothing }))
Spends-forget_last c = ground (arith, is_nothing-nothing)

pub serve_read_write-Pays :
    (c : Hcp2Codec) (now : ℕ) (req : List ℕ) (read_cnt write_cnt : ℕ)
    → IsSmall c.caps
    → Pays (presses c) (presses (serve_read_write c now req read_cnt write_cnt).0)
serve_read_write-Pays c now req read_cnt write_cnt small =
    let wdata = drop 11 req in
    let synced = sync_counter c (get_or wdata 0 0) (get_or wdata 1 0) in
    let ready = record synced { last_sent_command = nothing } in
    let spent = sync_counter-Spends c (get_or wdata 0 0) (get_or wdata 1 0) small in
    subst (λ (p : Presses). Pays (presses c) p)
      (sym (presses-serve_read_write c now req read_cnt write_cnt))
      (ground (
        arith,
        spent,
        Spends-forget_last synced,
        on_request_hook-Pays ready now 0x17 read_cnt write_cnt (get_or wdata 1 0)
            (subst (λ (limits : HcpCapabilities). IsSmall limits) (sym spent.1) small)
            is_nothing-nothing,
      ))

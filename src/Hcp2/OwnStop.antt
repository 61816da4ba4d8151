-- ===== src/Hcp2/OwnStop.antt =====
-- components/hcpbridge/hcp2_codec.cpp, the stop that the codec presses itself, and what a frame pays.
use esphome_hcpbridge.Base.{
  Bool, ℕ, ◌+◌, ◌≤◌, ◌≡◌, ◌∙◌, ◌&&◌, not, ◌==◌, ltb, arith, if◌then◌else◌, List, get_or, drop,
  length,
}
use esphome_hcpbridge.State.Laws.{is_nothing-stop}
use esphome_hcpbridge.Hcp2.Codec.{Hcp2Codec, rd16, reg_bcast_base}
use esphome_hcpbridge.Hcp2.Commands.{stop_door}
use esphome_hcpbridge.Hcp2.Poll.{on_request_hook, answer_other}
use esphome_hcpbridge.Hcp2.Broadcast.{goto_arrived, check_goto_target, write_bcasts}
use esphome_hcpbridge.Hcp2.Frame.{broadcast_fits, on_read_write, on_broadcast}
use esphome_hcpbridge.Hcp2.Presses.{presses, presses-write_bcasts, presses-mark_registered}
use esphome_hcpbridge.Hcp2.Repeats.{IsSmall, credit, per_press, sendings}
use esphome_hcpbridge.Hcp2.Budget.{serve_read_write-Pays, presses-answer_other}

-- The codec stops the door itself, at the target of a run.
halt_due : Hcp2Codec → Bool
halt_due c =
    c.goto_check_pending
    && not (c.state.goto_position == 0)
    && goto_arrived c.state
    && c.state.valid
    && not c.pause_requested

-- A broadcast that makes the codec press a stop itself.
pub own_stop : Hcp2Codec → ℕ → List ℕ → ℕ → Bool
own_stop c now req len =
    let cnt = rd16 req 4 in
    not (ltb len 7)
    && rd16 req 2 == reg_bcast_base
    && broadcast_fits len cnt (get_or req 6 0)
    && halt_due (write_bcasts cnt 0 (drop 7 req) (on_request_hook c now 0x10 cnt 0 0))

pub presses-hooked_broadcast :
    (c : Hcp2Codec) (now cnt : ℕ) → presses (on_request_hook c now 0x10 cnt 0 0) ≡ presses c
unfolding on_request_hook
presses-hooked_broadcast c now cnt =
    presses-mark_registered (answer_other c now 0x10 cnt 0) ∙ presses-answer_other c now 0x10 cnt 0

check_goto_target-Pays :
    (c : Hcp2Codec) (now : ℕ)
    → let q = presses (check_goto_target c now) in
      (credit q ≤ credit (presses c) + (if halt_due c then per_press c.caps else 0))
      × (q.limits ≡ c.caps)
unfolding check_goto_target stop_door halt_due
check_goto_target-Pays c now = ground (arith, is_nothing-stop)

pub on_broadcast-Pays :
    (c : Hcp2Codec) (now : ℕ) (req : List ℕ) (len : ℕ)
    → let q = presses (on_broadcast c now req len).0 in
      (credit q ≤ credit (presses c) + (if own_stop c now req len then per_press c.caps else 0))
      × (q.limits ≡ c.caps)
unfolding on_broadcast own_stop
on_broadcast-Pays c now req len =
    let hooked = on_request_hook c now 0x10 (rd16 req 4) 0 0 in
    let written = write_bcasts (rd16 req 4) 0 (drop 7 req) hooked in
    ground (
      arith,
      check_goto_target-Pays written now,
      presses-write_bcasts (rd16 req 4) 0 (drop 7 req) hooked,
      presses-hooked_broadcast c now (rd16 req 4),
    )

pub on_read_write-Pays :
    (c : Hcp2Codec) (now : ℕ) (req : List ℕ) (len : ℕ)
    → IsSmall c.caps
    → let r = on_read_write c now req len in
      let q = presses r.0 in
      ((if length r.1 == 0 then 0 else sendings q) + credit q ≤ credit (presses c))
      × (q.limits ≡ c.caps)
unfolding on_read_write
on_read_write-Pays c now req len small =
    ground (arith, serve_read_write-Pays c now req (rd16 req 4) (rd16 req 8) small)

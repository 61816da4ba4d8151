-- ===== src/BusTask.antt =====
-- components/hcpbridge/hcp_bus_task.h: what both transports share. The clock, the scheduler and the
-- codec's clock of its last frame are arguments.
pub mod Settle
use esphome_hcpbridge.Base.{
  ℕ, zero, suc, ◌+◌, Bool, not, ◌&&◌, ltb, ◌==◌, if◌then◌else◌, Option, none, some, sub32,
}

abbrev pub pause_settle_ms : ℕ
pause_settle_ms = 200

abbrev pub pause_quiet_ms : ℕ
pause_quiet_ms = 40

-- What `settleUntilQuiet` reads: the clock before its loop, and in the i-th round the clock of the
-- loop's test, the codec's clock of its last frame, and the clock that this is compared with.
pub record SettleClock : Type 0 where
  pub started : ℕ
  pub test : ℕ → ℕ
  pub last : ℕ → ℕ
  pub look : ℕ → ℕ

pub data SettleEnd : Type 0 where
  fell_quiet : ℕ → SettleEnd  -- in this round
  gave_up : ℕ → SettleEnd

-- `none` is a loop that is still turning.
pub settle_loop : SettleClock → ℕ → ℕ → Option SettleEnd
settle_loop w zero i = none
settle_loop w (suc fuel) i =
    let rest = settle_loop w fuel (i + 1) in
    let last = w.last i in
    if ltb (sub32 (w.test i) w.started) pause_settle_ms
    then (if not (last == 0) && ltb pause_quiet_ms (sub32 (w.look i) last)
        then some (fell_quiet i)
        else rest)
    else some (gave_up i)

-- Forty rounds of five milliseconds, and one to notice.
unfoldable pub settle_until_quiet : SettleClock → Option SettleEnd
unfolding settle_loop
settle_until_quiet w = settle_loop w 41 0

-- `startBusTask`: what FreeRTOS returned, and whether it gave us a handle.
abbrev pub start_bus_task : Bool → Bool → Bool
start_bus_task created handle = created && handle

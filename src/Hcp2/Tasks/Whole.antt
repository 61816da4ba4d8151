-- ===== src/Hcp2/Tasks/Whole.antt =====
-- A task that nobody interrupts does what the whole call does.
use esphome_hcpbridge.Base.{
  ℕ, zero, suc, ◌*◌, ◌<◌, ◌≡◌, ◌≢◌, refl, arith, Bool, Bool-cases, true, false, not, ◌&&◌, ltb,
  if◌then◌else◌, sub32, pos, none, some, inl, inr,
}
use esphome_hcpbridge.State.{
  HoermannCommand, nothing, stop, go_open, go_close, is_nothing, is_stop, cmd_stale_ms,
  same_command,
}
use esphome_hcpbridge.State.Laws.{is_stop-nothing}
use esphome_hcpbridge.Hcp2.Codec.{Hcp2Codec, clear_if_still}
use esphome_hcpbridge.Hcp2.Commands.{set_command, stop_door, set_position, check_bus_silence}
use esphome_hcpbridge.Hcp2.Watch.{check_command_effect}
use esphome_hcpbridge.Hcp2.Poll.{
  honour_cancel, drop_stale, resolve_stop, start_watch, choose_command, serve_loaded,
  set_command_values_to_read, write_command,
}
use esphome_hcpbridge.Hcp2.Tasks.{
  Loop, resting, checking, stop_checking, silencing, loop_step, Bus, away, aging, dropping, halting,
  bus_step, bus_age, bus_choose,
}

-- The bus task, until it is done or has made so many steps.
unfoldable pub is_away : Bus → Bool
is_away away = true
is_away _ = false

unfoldable pub bus_run : ℕ → Hcp2Codec → ℕ → Bus → Hcp2Codec × Bus
bus_run zero c now b = (c, b)
bus_run (suc n) c now b =
    let r = bus_step c now b in let rest = bus_run n r.0 now r.1 in if is_away r.1 then r else rest

unfoldable pub is_resting : Loop → Bool
is_resting resting = true
is_resting _ = false

unfoldable pub loop_run : ℕ → Hcp2Codec → Loop → Hcp2Codec × Loop
loop_run zero c l = (c, l)
loop_run (suc n) c l =
    let r = loop_step c l in let rest = loop_run n r.0 r.1 in if is_resting r.1 then r else rest

-- What follows the choice.
bus_run-choose :
    (n : ℕ) (c : Hcp2Codec) (now : ℕ) (cmd : HoermannCommand)
    → let r = bus_choose c now cmd in
      let (chosen, sent, why) = choose_command c now cmd in
      (if is_away r.1 then r else bus_run (suc (suc n)) r.0 now r.1)
      ≡ (write_command chosen now sent why, away)
unfolding bus_choose bus_run bus_step is_away choose_command start_watch is_nothing clear_if_still
bus_run-choose n c now nothing = refl
bus_run-choose n c now cmd = elim (Bool-cases (same_command c.next_command cmd)) [
  | inl same ↦ rw same refl
  | inr other ↦ rw other refl
]

bus_run-halting :
    (c : Hcp2Codec) (now : ℕ) (cmd : HoermannCommand)
    → let (chosen, sent, why) = choose_command (clear_if_still c stop) now cmd in
      bus_run 3 c now (halting cmd) ≡ (write_command chosen now sent why, away)
unfolding bus_run bus_step
bus_run-halting c now cmd = bus_run-choose 0 (clear_if_still c stop) now cmd

bus_run-dropping :
    (c : Hcp2Codec) (now : ℕ) (cmd : HoermannCommand)
    → let (chosen, sent, why) = choose_command (clear_if_still c cmd) now nothing in
      bus_run 3 c now (dropping cmd) ≡ (write_command chosen now sent why, away)
unfolding bus_run bus_step
bus_run-dropping c now cmd = bus_run-choose 0 (clear_if_still c cmd) now nothing

bus_run-aging :
    (c : Hcp2Codec) (now : ℕ) (cmd : HoermannCommand)
    → bus_run 4 c now (aging cmd) ≡ (serve_loaded c now cmd, away)
unfolding bus_run bus_step bus_age serve_loaded drop_stale resolve_stop is_away
bus_run-aging c now cmd =
    elim (Bool-cases (not (is_nothing cmd) && ltb cmd_stale_ms (sub32 now c.next_command_on))) [
      | inl old ↦ rw (old, is_stop-nothing) (bus_run-dropping _ now cmd)
      | inr fresh ↦ elim (Bool-cases (is_stop cmd)) [
        | inl halts ↦ rw (fresh, halts) (bus_run-halting c now _)
        | inr other ↦ rw (fresh, other) (bus_run-choose 1 c now cmd)
      ]
    ]

-- A poll whose seven steps nobody interrupts leaves the codec as the whole call
-- `setCommandValuesToRead` does, and the bus task is done with it.
pub bus_run-poll :
    (c : Hcp2Codec) (now : ℕ) → bus_run 7 c now away ≡ (set_command_values_to_read c now, away)
unfolding bus_run bus_step is_away set_command_values_to_read
bus_run-poll c now =
    let watched = honour_cancel (check_command_effect c now) in
    bus_run-aging watched now watched.next_command

-- A press that nobody interrupts is the whole call `setCommand`.
pub loop_run-set_command :
    (c : Hcp2Codec) (now : ℕ) (cmd : HoermannCommand)
    → loop_run 4 c (checking now cmd none) ≡ ((set_command c now true cmd).0, resting)
unfolding loop_run loop_step is_resting set_command
loop_run-set_command c now cmd = ground arith

-- A stop that nobody interrupts is the whole call `stopDoor`.
pub loop_run-stop_door :
    (c : Hcp2Codec) (now : ℕ) → loop_run 4 c (stop_checking now) ≡ ((stop_door c now).0, resting)
unfolding loop_run loop_step is_resting stop_door
loop_run-stop_door c now = ground arith

-- A check of the silence that nobody interrupts is the whole call.
pub loop_run-check_bus_silence :
    (c : Hcp2Codec) (now : ℕ) → loop_run 2 c (silencing now) ≡ (check_bus_silence c now, resting)
unfolding loop_run loop_step is_resting check_bus_silence
loop_run-check_bus_silence c now = ground arith

-- A run to a percentage that nobody interrupts, at a door that is elsewhere and tells its position,
-- is the whole call `setPosition`.
pub loop_run-set_position :
    (c : Hcp2Codec) (now percent : ℕ)
    → 5 < percent
    → percent < 95
    → c.caps.has_position ≡ true
    → c.state.current_position ≢ percent * 2
    → loop_run 5 c (
        checking now
          (if ltb c.state.current_position (percent * 2) then go_open else go_close)
          (some (pos percent)))
      ≡ ((set_position c now (pos percent)).0, resting)
unfolding loop_run loop_step is_resting set_position set_command
loop_run-set_position c now percent low high able away_from = ground arith

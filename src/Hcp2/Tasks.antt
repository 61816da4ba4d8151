-- ===== src/Hcp2/Tasks.antt =====
-- components/hcpbridge/hcp2_codec.cpp, the slot between the loop task, which presses, and the bus
-- task, which polls: `setCommand`, `stopDoor`, `setPosition` and `checkBusSilence` against
-- `setCommandValuesToRead`. Each access to the slot is a step of its own, and so is each to its
-- stamp, but that a press loads the old stamp and stores its own in one step; what is read before a
-- press, the link and the pause, is one step too. What only the bus task touches changes together
-- with the access before it.
pub mod Whole
pub mod Count
pub mod LoopOwed
pub mod BusOwed
pub mod Owed
pub mod Races
mod Tests
use esphome_hcpbridge.Base.{
  ℕ, ◌+◌, ◌≡◌, Bool, true, false, not, ◌&&◌, ◌||◌, ltb, ◌==◌, if◌then◌else◌, sub32, ℤ, negsuc,
  Option, none, some,
}
use esphome_hcpbridge.State.{
  HoermannCommand, nothing, impulse, stop, command_index, is_nothing, is_stop, is_moving,
  set_goto_position, set_valid, set_link, silent, bus_silence_ms, cmd_stale_ms,
}
use esphome_hcpbridge.Events.{
  HcpEvent, command_refused_no_link, command_refused_slot_busy, link_lost_command_dropped,
  command_stale, command_sent,
}
use esphome_hcpbridge.Hcp2.Codec.{Hcp2Codec, initial_codec, push_event, clear_if_still}
use esphome_hcpbridge.Hcp2.Watch.{check_command_effect}
use esphome_hcpbridge.Hcp2.Poll.{honour_cancel, goto_of, choose_command, write_command}

-- Where the loop task stands. A press carries its time, its command and, from `setPosition`, the
-- percentage that the run is to stop at.
pub data Loop : Type 0 where
  resting : Loop
  checking : ℕ → HoermannCommand → Option ℤ → Loop  -- before the link and the pause are read
  stamping : ℕ → HoermannCommand → Option ℤ → Loop  -- before the stamp is loaded and stored
  exchanging : ℕ → HoermannCommand → Option ℤ → ℕ → Loop  -- before the exchange, with the old stamp
  restoring : ℕ → HoermannCommand → ℕ → Loop  -- the slot was taken
  asking : ℤ → Loop  -- before `gotoRequest.store`
  stop_checking : ℕ → Loop
  stop_stamping : ℕ → Loop
  stop_storing : Loop
  stop_cancelling : Loop
  silencing : ℕ → Loop  -- before the last frame is looked at
  emptying : ℕ → Loop  -- before the slot is emptied

-- Where the bus task stands in `setCommandValuesToRead`.
pub data Bus : Type 0 where
  away : Bus
  cancelling : Bus  -- before `cancelWatch.exchange`
  loading : Bus  -- before the slot is loaded
  aging : HoermannCommand → Bus  -- before the stamp is loaded
  dropping : HoermannCommand → Bus  -- before an old press is cleared
  halting : HoermannCommand → Bus  -- before a stop is cleared, with what it turned into
  clearing : HoermannCommand → Bus  -- before the press that goes out is cleared
  targeting : HoermannCommand → Bus  -- before `gotoRequest.exchange`
  own_checking : Bus  -- its own stop, at the target of a run
  own_stamping : Bus
  own_storing : Bus
  own_cancelling : Bus

unfoldable pub loop_step : Hcp2Codec → Loop → Hcp2Codec × Loop
loop_step c resting = (c, resting)
loop_step c (checking now cmd goal) =
    if not c.state.valid || c.pause_requested
    then (push_event c command_refused_no_link (command_index cmd) 0 now, resting)
    else (c, stamping now cmd goal)
loop_step c (stamping now cmd goal) =
    (record c { next_command_on = now }, exchanging now cmd goal c.next_command_on)
loop_step c (exchanging now cmd goal old) =
    if is_nothing c.next_command
    then (
      record c { next_command = cmd },
      elim goal [ none ↦ resting | some percent ↦ asking percent ],
    )
    else (c, restoring now cmd old)
loop_step c (restoring now cmd old) = (
  push_event (record c { next_command_on = old }) command_refused_slot_busy (command_index cmd) 0
      now,
  resting,
)
loop_step c (asking percent) = (record c { goto_request = percent }, resting)
loop_step c (stop_checking now) =
    if not c.state.valid || c.pause_requested
    then (push_event c command_refused_no_link (command_index stop) 0 now, resting)
    else (c, stop_stamping now)
loop_step c (stop_stamping now) = (record c { next_command_on = now }, stop_storing)
loop_step c stop_storing = (record c { next_command = stop }, stop_cancelling)
loop_step c stop_cancelling = (record c { cancel_watch = true }, resting)
loop_step c (silencing now) =
    if not (c.last_frame_on == 0) && ltb bus_silence_ms (sub32 now c.last_frame_on)
    then (record c { state = set_link (set_valid c.state false) silent }, emptying now)
    else (c, resting)
loop_step c (emptying now) =
    let emptied = record c { next_command = nothing } in
    (
      (if is_nothing c.next_command
          then emptied
          else push_event emptied link_lost_command_dropped 0 0 now),
      resting,
    )

-- What follows once it is known what the slot comes to.
unfoldable pub bus_choose : Hcp2Codec → ℕ → HoermannCommand → Hcp2Codec × Bus
bus_choose c now cmd =
    let (chosen, sent, why) = choose_command c now nothing in
    if is_nothing cmd
    then (write_command chosen now sent why, away)
    else (record c { repeat_command = nothing }, clearing cmd)

-- A press is old or not, and a stop is looked at against the door as it is.
unfoldable pub bus_age : Hcp2Codec → ℕ → HoermannCommand → Hcp2Codec × Bus
unfolding bus_choose
bus_age c now cmd =
    if not (is_nothing cmd) && ltb cmd_stale_ms (sub32 now c.next_command_on)
    then (push_event c command_stale (command_index cmd) 0 now, dropping cmd)
    else (if is_stop cmd
        then (c, halting (if is_moving c.state.door then impulse else nothing))
        else bus_choose c now cmd)

unfoldable pub bus_step : Hcp2Codec → ℕ → Bus → Hcp2Codec × Bus
unfolding bus_age bus_choose
bus_step c now away = (check_command_effect c now, cancelling)
bus_step c now cancelling = (honour_cancel c, loading)
bus_step c now loading = (c, aging c.next_command)
bus_step c now (aging cmd) = bus_age c now cmd
bus_step c now (dropping cmd) = bus_choose (clear_if_still c cmd) now nothing
bus_step c now (halting cmd) = bus_choose (clear_if_still c stop) now cmd
bus_step c now (clearing cmd) = (clear_if_still c cmd, targeting cmd)
bus_step c now (targeting cmd) = (
  write_command
      (record c {
        goto_request = negsuc 0;
        state = set_goto_position c.state (goto_of c.goto_request);
        awaited_command = cmd;
        awaited_since = now;
        confirm_repeats = 0;
        state_writes_when_sent = c.state_writes;
        repeats_sent = 0;
      })
      now cmd command_sent,
  away,
)
bus_step c now own_checking =
    if not c.state.valid || c.pause_requested
    then (push_event c command_refused_no_link (command_index stop) 0 now, away)
    else (c, own_stamping)
bus_step c now own_stamping = (record c { next_command_on = now }, own_storing)
bus_step c now own_storing = (record c { next_command = stop }, own_cancelling)
bus_step c now own_cancelling =
    (record c { cancel_watch = true; state = set_goto_position c.state 0 }, away)

-- Both tasks, with the time that the bus task's call was given; how many presses were accepted and
-- how many commands went out from the slot; and whether the slot was filled since it was loaded.
pub record System : Type 0 where
  pub codec : Hcp2Codec
  pub loop : Loop
  pub bus : Bus
  pub now : ℕ
  pub accepted : ℕ
  pub sent : ℕ
  pub filled : Bool

-- The steps that fill the slot.
unfoldable pub loop_fills : Hcp2Codec → Loop → Bool
loop_fills c (exchanging now cmd goal old) = is_nothing c.next_command
loop_fills c stop_storing = true
loop_fills c _ = false

unfoldable pub bus_fills : Bus → Bool
bus_fills own_storing = true
bus_fills _ = false

unfoldable pub sends : Bus → Bool
sends (targeting cmd) = true
sends _ = false

unfoldable pub loads : Bus → Bool
loads loading = true
loads _ = false

abbrev pub after_loop : System → System
after_loop s =
    let r = loop_step s.codec s.loop in
    let filled = loop_fills s.codec s.loop in
    record s {
      codec = r.0;
      loop = r.1;
      accepted = s.accepted + (if filled then 1 else 0);
      filled = s.filled || filled;
    }

abbrev pub after_bus : System → System
after_bus s =
    let r = bus_step s.codec s.now s.bus in
    let filled = bus_fills s.bus in
    record s {
      codec = r.0;
      bus = r.1;
      accepted = s.accepted + (if filled then 1 else 0);
      sent = s.sent + (if sends s.bus then 1 else 0);
      filled = not (loads s.bus) && (s.filled || filled);
    }

-- What can happen: the loop task begins a call, a restart drops what is queued, the bus task begins
-- a poll or a stop of its own, it does something else that leaves the slot alone, or one of the two
-- goes a step further.
pub data Step : System → System → Type 0 where
  presses :
      (s : System) (now : ℕ) (cmd : HoermannCommand) (goal : Option ℤ)
      → s.loop ≡ resting
      → Step s (record s { loop = checking now cmd goal })
  stops : (s : System) (now : ℕ) → s.loop ≡ resting → Step s (record s { loop = stop_checking now })
  silences : (s : System) (now : ℕ) → s.loop ≡ resting → Step s (record s { loop = silencing now })
  drops :
      (s : System)
      → s.loop ≡ resting
      → Step s (record s { codec = record s.codec { next_command = nothing } })
  polls : (s : System) (now : ℕ) → s.bus ≡ away → Step s (after_bus (record s { now = now }))
  halts :
      (s : System) (now : ℕ) → s.bus ≡ away → Step s (record s { bus = own_checking; now = now })
  other :
      (s : System) (c : Hcp2Codec)
      → s.bus ≡ away
      → c.next_command ≡ s.codec.next_command
      → Step s (record s { codec = c })
  loops : (s : System) → Step s (after_loop s)
  buses : (s : System) → Step s (after_bus s)

abbrev pub start : System
start = record {
  codec = initial_codec;
  loop = resting;
  bus = away;
  now = 0;
  accepted = 0;
  sent = 0;
  filled = false;
}

pub data Reach : System → Type 0 where
  begins : Reach start
  then_steps : {s t : System} → Reach s → Step s t → Reach t

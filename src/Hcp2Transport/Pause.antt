-- ===== src/Hcp2Transport/Pause.antt =====
-- The pause before a restart: it ends, and nothing is pressed in it.
use esphome_hcpbridge.Base.{
  ap, zero, suc, subst, sym, ◌∙◌, ◌⊎◌, inl, inr, true, false, Bool, Bool-cases, not, ◌&&◌, ◌||◌,
  ltb, ℕ, ◌+◌, ◌*◌, ◌≤◌, ◌<◌, ◌^◌, ◌≡◌, ◌==◌, refl, arith, if◌then◌else◌, Option, some, List, [],
  ◌∷◌, get_or, length, drop, sub32,
}
use esphome_hcpbridge.State.{nothing, is_nothing, bus_silence_ms}
use esphome_hcpbridge.State.Laws.{is_nothing-nothing}
use esphome_hcpbridge.Hcp2Frame.{hcp2_validate}
use esphome_hcpbridge.Hcp2.Codec.{Hcp2Codec, rd16, request_pause, end_pause, drop_queued_command}
use esphome_hcpbridge.Hcp2.Commands.{stop_door}
use esphome_hcpbridge.Hcp2.Poll.{on_request_hook}
use esphome_hcpbridge.Hcp2.Broadcast.{check_goto_target}
use esphome_hcpbridge.Hcp2.Frame.{notice_frame, on_broadcast, on_valid_frame, on_frame}
use esphome_hcpbridge.Hcp2.Presses.{Presses, presses-notice_frame, presses-write_bcasts}
use esphome_hcpbridge.Hcp2.Pause.{on_frame_held}
use esphome_hcpbridge.Hcp2.OwnStop.{presses-hooked_broadcast}
use esphome_hcpbridge.BusTask.Settle.{elapsed, Ticks, settle_until_quiet-Settles}
use esphome_hcpbridge.Hcp2Transport.{
  Arrival, serve_frames, PauseWorld, await_pause, finish_pause, announce_pause,
}

-- A pause is on and nothing waits.
pub record IsPaused (c : Hcp2Codec) : Type 0 where
  pub pausing : c.pause_requested ≡ true
  pub empty : c.next_command ≡ nothing

on_broadcast-IsPaused :
    (c : Hcp2Codec) (now : ℕ) (req : List ℕ) (len : ℕ)
    → IsPaused c
    → IsPaused (on_broadcast c now req len).0
unfolding on_broadcast check_goto_target stop_door
on_broadcast-IsPaused c now req len h =
    let hooked = on_request_hook c now 0x10 (rd16 req 4) 0 0 in
    ground (
      arith,
      h.pausing,
      h.empty,
      presses-hooked_broadcast c now (rd16 req 4),
      presses-write_bcasts (rd16 req 4) 0 (drop 7 req) hooked,
    )

on_other_frame-IsPaused :
    (c : Hcp2Codec) (now : ℕ) (raw : List ℕ)
    → (get_or raw 1 0 == 0x17) ≡ false
    → IsPaused c
    → IsPaused (on_frame c now raw).0
unfolding on_frame on_valid_frame
on_other_frame-IsPaused c now raw other h =
    let alive = notice_frame c now in
    let same = presses-notice_frame c now in
    let kept : IsPaused alive = record {
      pausing = ap (λ (p : Presses). p.pausing) same ∙ h.pausing;
      empty = ap (λ (p : Presses). p.slot) same ∙ h.empty;
    } in
    ground (arith, other, h, kept, on_broadcast-IsPaused alive now raw (hcp2_validate raw) kept)

on_frame-IsPaused :
    (c : Hcp2Codec) (now : ℕ) (raw : List ℕ) → IsPaused c → IsPaused (on_frame c now raw).0
on_frame-IsPaused c now raw h = elim (Bool-cases (get_or raw 1 0 == 0x17)) [
  | inl poll ↦
      let kept = on_frame_held c now raw h.pausing (ground (arith, poll)) in
      record { pausing = kept.3; empty = kept.1 ∙ h.empty }
  | inr other ↦ on_other_frame-IsPaused c now raw other h
]

-- Does the answer to a frame carry a command?
abbrev pub carries : Hcp2Codec → Arrival → Bool
carries c a =
    let r = on_frame c a.at_ms a.raw in
    get_or a.raw 1 0 == 0x17 && not (length r.1 == 0) && not (is_nothing r.0.last_sent_command)

-- The commands that the answers to a sequence of frames carry.
pub commands : List Arrival → Hcp2Codec → ℕ
commands [] c = 0
commands (a ∷ later) c =
    (if carries c a then 1 else 0) + commands later (on_frame c a.at_ms a.raw).0

carries-IsPaused : (c : Hcp2Codec) (a : Arrival) → IsPaused c → carries c a ≡ false
carries-IsPaused c a h = elim (Bool-cases (get_or a.raw 1 0 == 0x17)) [
  | inl poll ↦ ground (
    arith,
    poll,
    is_nothing-nothing,
    on_frame_held c a.at_ms a.raw h.pausing (ground (arith, poll)),
  )
  | inr other ↦ ground (arith, other)
]

serve_frames-IsPaused :
    (fs : List Arrival) (c : Hcp2Codec)
    → IsPaused c
    → IsPaused (serve_frames fs c) × (commands fs c ≡ 0)
unfolding serve_frames commands
serve_frames-IsPaused [] c h = (h, refl)
serve_frames-IsPaused (a ∷ later) c h =
    let rest =
      serve_frames-IsPaused later (on_frame c a.at_ms a.raw).0
        (on_frame-IsPaused c a.at_ms a.raw h) in
    (rest.0, ground (arith, rest.1, carries-IsPaused c a h))

-- How the wait for the acknowledgement ends.
record Waits (r : Option (Hcp2Codec × Bool)) : Type 0 where
  out : Hcp2Codec × Bool
  returns : r ≡ some out
  paused : IsPaused out.0
  acknowledged : out.1 ≡ true → out.0.pause_confirmed ≡ true

-- One look: the three ways it can go.
await_round :
    (w : PauseWorld) (t : ℕ → ℕ) (timeout_ms fuel i : ℕ) (c : Hcp2Codec)
    → sub32 (w.test i) w.started ≡ t i
    → IsPaused c
    → let served = serve_frames (w.arrivals i) c in
      Waits (await_pause w timeout_ms (suc fuel) i c)
      ⊎ (await_pause w timeout_ms (suc fuel) i c ≡ await_pause w timeout_ms fuel (i + 1) served)
        × (t i < timeout_ms)
unfolding await_pause
await_round w t timeout_ms fuel i c e h =
    let served = serve_frames (w.arrivals i) c in
    elim (Bool-cases (ltb (t i) timeout_ms)) [
      | inl early ↦ elim (Bool-cases served.pause_confirmed) [
        | inl confirmed ↦ inl (record {
          out = (served, true);
          returns = ground (arith, e, early, confirmed);
          paused = (serve_frames-IsPaused (w.arrivals i) c h).0;
          acknowledged = λ _. confirmed;
        })
        | inr waiting ↦ inr (ground (arith, e, early, waiting))
      ]
      | inr late ↦ inl (record {
        out = (c, false);
        returns = ground (arith, e, late);
        paused = h;
        acknowledged = λ x. cc x;
      })
    ]

await_pause-Waits :
    (w : PauseWorld) (t : ℕ → ℕ) (timeout_ms fuel i : ℕ) (c : Hcp2Codec)
    → Ticks 10 w.started w.test t
    → t i < 2 ^ 32
    → timeout_ms ≤ 2 ^ 31
    → timeout_ms ≤ t i + 10 * fuel
    → IsPaused c
    → Waits (await_pause w timeout_ms (suc fuel) i c)
await_pause-Waits w t timeout_ms zero i c k small short enough h =
    elim (await_round w t timeout_ms 0 i c (elapsed 10 w.started w.test t i k small) h) [
      | inl done ↦ done
      | inr (_, early) ↦ absurd (omega arith)
    ]
await_pause-Waits w t timeout_ms (suc fuel) i c k small short enough h =
    elim (await_round w t timeout_ms (suc fuel) i c (elapsed 10 w.started w.test t i k small) h) [
      | inl done ↦ done
      | inr (same, early) ↦
          subst (λ (r : Option (Hcp2Codec × Bool)). Waits r) (sym same)
            (await_pause-Waits w t timeout_ms fuel (i + 1) (serve_frames (w.arrivals i) c) k
              (omega (arith, k.over i)) short (omega (arith, k.waits i))
              (serve_frames-IsPaused (w.arrivals i) c h).0)
    ]

-- How a pause that was asked for ends.
pub record IsOver (r : Option (Hcp2Codec × Bool)) : Type 0 where
  pub out : Hcp2Codec × Bool
  pub returns : r ≡ some out
  pub resumed : out.0.pause_requested ≡ false
  pub empty : out.0.next_command ≡ nothing

finish_pause-IsOver :
    (w : PauseWorld) (settled : ℕ → ℕ) (waited : Hcp2Codec × Bool)
    → Ticks 5 w.settle.started w.settle.test settled
    → IsPaused waited.0
    → IsOver (finish_pause w waited)
unfolding finish_pause end_pause
finish_pause-IsOver w settled waited k h =
    let s = settle_until_quiet-Settles w.settle settled k in
    record {
      out = (end_pause (serve_frames w.settling waited.0), waited.1);
      returns = rw (s.returns, finish_pause) refl;
      resumed = refl;
      empty = (serve_frames-IsPaused w.settling waited.0 h).0.empty;
    }

asked-IsPaused : (c : Hcp2Codec) → IsPaused (request_pause (drop_queued_command c))
unfolding request_pause drop_queued_command
asked-IsPaused c = record { pausing = refl; empty = refl }

module _ (fuel : ℕ) (w : PauseWorld) (timeout_ms : ℕ) (c : Hcp2Codec) where
  -- Nobody to tell.
  abbrev unheard : Bool
  unheard =
      not c.caps.has_pause
      || c.last_frame_on == 0
      || ltb bus_silence_ms (sub32 w.now c.last_frame_on)

  announce_nobody : unheard ≡ true → announce_pause fuel w timeout_ms c ≡ some (c, false)
  unfolding announce_pause
  announce_nobody h = ground (arith, h)

  announce_heard :
      (waited : Hcp2Codec × Bool)
      → unheard ≡ false
      → await_pause w timeout_ms fuel 0 (request_pause (drop_queued_command c)) ≡ some waited
      → announce_pause fuel w timeout_ms c ≡ finish_pause w waited
  unfolding announce_pause
  announce_heard waited h e = rw (h, announce_pause, e) refl

-- On a clock on which each round of the wait takes at least ten milliseconds, each round of the
-- settling at least five, and none 2 ^ 31, with one more turn of fuel than tenths of the timeout:
-- announcing a pause returns. Either it returns false with the codec as it was, or the codec it
-- returns no longer pauses and has an empty slot, whatever frames arrived meanwhile.
pub announce_pause-IsOver :
    (w : PauseWorld) (waited settled : ℕ → ℕ) (fuel timeout_ms : ℕ) (c : Hcp2Codec)
    → Ticks 10 w.started w.test waited
    → Ticks 5 w.settle.started w.settle.test settled
    → timeout_ms ≤ 10 * fuel
    → timeout_ms ≤ 2 ^ 31
    → (announce_pause (suc fuel) w timeout_ms c ≡ some (c, false))
      ⊎ IsOver (announce_pause (suc fuel) w timeout_ms c)
announce_pause-IsOver w waited settled fuel timeout_ms c k l enough short =
    elim (Bool-cases (
      not c.caps.has_pause
      || c.last_frame_on == 0
      || ltb bus_silence_ms (sub32 w.now c.last_frame_on))) [
        | inl nobody ↦ inl (announce_nobody (suc fuel) w timeout_ms c nobody)
        | inr heard ↦
            let asked = request_pause (drop_queued_command c) in
            let r =
              await_pause-Waits w waited timeout_ms fuel 0 asked k (omega (arith, k.first)) short
                (omega (arith, enough)) (asked-IsPaused c) in
            inr (
              subst (λ (o : Option (Hcp2Codec × Bool)). IsOver o)
                (sym (announce_heard (suc fuel) w timeout_ms c r.out heard r.returns))
                (finish_pause-IsOver w settled r.out l r.paused))
      ]

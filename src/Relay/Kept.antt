-- ===== src/Relay/Kept.antt =====
-- What Home Assistant is told keeps up with the codec: every step of hcp2_codec.cpp, and every
-- `update` of hcpbridge.cpp.
use esphome_hcpbridge.Base.{
  ℕ, ◌≡◌, refl, sym, subst, ◌∙◌, arith, Bool-cases, true, Option, some, none, inl, inr, List,
  length, [], ◌+◌, ◌++◌, ◌∷◌, ◌==◌, if◌then◌else◌,
}
use esphome_hcpbridge.State.{HoermannState, clear_changed}
use esphome_hcpbridge.Hcp2.Codec.{Hcp2Codec, initial_codec}
use esphome_hcpbridge.Hcp2.Commands.{check_bus_silence}
use esphome_hcpbridge.Hcp2.Identity.{publish_identity}
use mathlib.Core.Option.{some-injective}
use esphome_hcpbridge.Ring.{HcpEventRing}
use esphome_hcpbridge.Hcp2.Board.{Board, board, board-check_bus_silence, board-publish_identity}
use esphome_hcpbridge.Hcp2.Board.Mirror.{IsMirror, start-IsMirror}
use esphome_hcpbridge.Hcp2.Board.Histories.{step-IsMirror}
use esphome_hcpbridge.Hcp2.Noted.{noted-check_bus_silence}
use esphome_hcpbridge.Hcp2.Noted.Histories.{IsSound, keeps-IsSound, step-IsSound, start-IsSound}
use esphome_hcpbridge.Component.Log.{drain_events-Holds}
use mathlib.Core.List.{map}
use esphome_hcpbridge.Component.{
  of_lost, log_event, LogLine, Updated, update, look_after, drain_events,
}
use esphome_hcpbridge.Hcp2.Changed.{
  Quiet, then-Quiet, Quiet-check_bus_silence, Quiet-publish_identity,
}
use esphome_hcpbridge.Hcp2.Changed.Histories.{Quiet-step}
use esphome_hcpbridge.HcpBus.{hcp2_bus}
use esphome_hcpbridge.Entities.Cover.{
  HcpBridgeCover, CoverOperation, follow_door, lose_link, on_event_triggered,
}
use esphome_hcpbridge.Entities.Cover.Told.{heard}
use esphome_hcpbridge.Hcp2.Runs
use esphome_hcpbridge.Relay.{
  Home, relay, Step, serves, updates, Reach, begins, then_step, told_position, IsRelayed,
}

serves-IsRelayed :
    (h : Home) (s : Runs.Step)
    → IsRelayed h
    → IsRelayed (record h { codec = (Runs.step h.codec s).after })
serves-IsRelayed h s r =
    let quiet = Quiet-step h.codec s in
    record {
      mirror = step-IsMirror h.codec s r.mirror;
      knows = r.knows;
      previous = r.previous;
      current = λ same valid.
          let kept = quiet same in
          let before = r.current kept.0 (sym kept.1 ∙ valid) in (before.0, before.1 ∙ sym kept.2);
    }

-- What the cover does with a report.
report-told :
    (e : HcpBridgeCover) (s : HoermannState) (known : Option (ℕ × CoverOperation))
    → (e.published ≡ true → told_position known ≡ some e.position)
    → (e.published ≡ true → e.previous_position ≡ e.position)
    → let r = on_event_triggered e s in
      (r.0.published ≡ true → told_position (heard known r.1) ≡ some r.0.position)
      × (r.0.published ≡ true → r.0.previous_position ≡ r.0.position)
      × (s.valid ≡ true → (r.0.published ≡ true) × (r.0.position ≡ s.current_position))
unfolding on_event_triggered follow_door lose_link heard told_position
report-told e s known knows previous =
    (ground (arith, knows, previous), ground (arith, previous), ground arith)

-- A cover that is called.
called-IsRelayed :
    (h : Home) (c : Hcp2Codec)
    → IsMirror (board c)
    → IsRelayed h
    → let r = on_event_triggered h.cover c.state in
      IsRelayed (record { codec = c; cover = r.0; known = heard h.known r.1 })
called-IsRelayed h c mirror relayed =
    let told = report-told h.cover c.state h.known relayed.knows relayed.previous in
    record {
      mirror = mirror;
      knows = told.0;
      previous = told.1;
      current = λ same valid. told.2 valid;
    }

look_after-IsRelayed :
    (h : Home) (c : Hcp2Codec) (now : ℕ) (lines : List LogLine)
    → board c ≡ board h.codec
    → Quiet h.codec c
    → IsRelayed h
    → IsRelayed (relay h (look_after hcp2_bus c now lines))
unfolding look_after relay clear_changed
look_after-IsRelayed h c now lines same_board same_state relayed =
    let named = publish_identity c in
    let looked = check_bus_silence named now in
    let mirror : IsMirror (board looked) =
      subst (λ (x : Board). IsMirror x)
        (sym (board-check_bus_silence named now ∙ board-publish_identity c ∙ same_board))
        relayed.mirror in
    let quiet =
      then-Quiet h.codec named looked (Quiet-check_bus_silence named now)
        (then-Quiet h.codec c named (Quiet-publish_identity c) same_state) in
    elim (Bool-cases looked.state.changed) [
      | inl changed ↦
          rw changed (
            called-IsRelayed h (record looked { state = clear_changed looked.state }) mirror
              relayed)
      | inr same ↦ rw same (record {
        mirror = mirror;
        knows = relayed.knows;
        previous = relayed.previous;
        current = λ still valid.
            let kept = quiet same in
            let before = relayed.current kept.0 (sym kept.1 ∙ valid) in
            (before.0, before.1 ∙ sym kept.2);
      })
    ]

-- What `update` does once the log is drained, if it was.
drained-IsRelayed :
    (h : Home) (now : ℕ) (u : Updated Hcp2Codec) (o : Option (List LogLine × HcpEventRing))
    → IsRelayed h
    → (elim o [
      | none ↦ none
      | some drained ↦
          some (look_after hcp2_bus (record h.codec { events = drained.1 }) now drained.0)
    ])
      ≡ some u
    → IsRelayed (relay h u)
drained-IsRelayed h now u none relayed returns = absurd (ground (arith, returns))
drained-IsRelayed h now u (some drained) relayed returns =
    subst (λ (v : Updated Hcp2Codec). IsRelayed (relay h v)) (some-injective _ _ returns)
      (look_after-IsRelayed h (record h.codec { events = drained.1 }) now drained.0 refl
        (λ same. (same, refl, refl)) relayed)

updates-IsRelayed :
    (h : Home) (now : ℕ) (u : Updated Hcp2Codec)
    → update hcp2_bus h.codec now ≡ some u
    → IsRelayed h
    → IsRelayed (relay h u)
unfolding update
updates-IsRelayed h now u returns relayed =
    drained-IsRelayed h now u (drain_events h.codec.events) relayed returns

Step-IsRelayed : {h k : Home} → Step h k → IsRelayed h → IsRelayed k
Step-IsRelayed (serves h s) relayed = serves-IsRelayed h s relayed
Step-IsRelayed (updates h now u returns) relayed = updates-IsRelayed h now u returns relayed

pub Reach-IsRelayed : {h : Home} → Reach h → IsRelayed h
unfolding initial_codec
Reach-IsRelayed (begins e known fresh) = record {
  mirror = start-IsMirror;
  knows = λ published. ground (arith, published, fresh);
  previous = λ published. ground (arith, published, fresh);
  current = λ same valid. ground (arith, valid);
}
Reach-IsRelayed (then_step reached step) = Step-IsRelayed step (Reach-IsRelayed reached)

-- The ring, over the same steps.
look_after-IsSound :
    (c : Hcp2Codec) (now : ℕ) (lines : List LogLine)
    → IsSound c.events
    → IsSound (look_after hcp2_bus c now lines).bus.events
unfolding look_after publish_identity
look_after-IsSound c now lines sound =
    let looked = check_bus_silence (publish_identity c) now in
    let after : IsSound looked.events =
      noted-check_bus_silence IsSound keeps-IsSound (publish_identity c) now sound in
    elim (Bool-cases looked.state.changed) [
      | inl changed ↦ rw changed after
      | inr same ↦ rw same after
    ]

updates-IsSound :
    (c : Hcp2Codec) (now : ℕ) (u : Updated Hcp2Codec)
    → update hcp2_bus c now ≡ some u
    → IsSound c.events
    → IsSound u.bus.events
unfolding update
updates-IsSound c now u returns sound =
    let (base, q, ring) = sound in
    let d = drain_events-Holds q ring in
    let lines : List LogLine =
      map log_event q ++ (if c.events.dropped == 0 then [] else of_lost c.events.dropped ∷ []) in
    let drained = record c { events = d.after } in
    let done : update hcp2_bus c now ≡ some (look_after hcp2_bus drained now lines) =
      rw (d.returns, update) refl in
    subst (λ (v : Updated Hcp2Codec). IsSound v.bus.events)
      (some-injective _ _ (sym done ∙ returns))
      (look_after-IsSound drained now lines (base + length q, [], d.empty))

pub Reach-IsSound : {h : Home} → Reach h → IsSound h.codec.events
unfolding relay
Reach-IsSound (begins e known fresh) = start-IsSound
Reach-IsSound (then_step reached (serves h s)) = step-IsSound h.codec s (Reach-IsSound reached)
Reach-IsSound (then_step reached (updates h now u returns)) =
    let sound = updates-IsSound h.codec now u returns (Reach-IsSound reached) in
    elim (Bool-cases u.called) [ inl called ↦ rw called sound | inr quiet ↦ rw quiet sound ]

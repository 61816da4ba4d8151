-- ===== src/Entities/Cover/Told.antt =====
-- What Home Assistant was last told of the door.
use esphome_hcpbridge.Base.{ℕ, ◌≡◌, arith, true, List, [], ◌∷◌, Option, some, ◌++◌, refl, ap₂, ◌∙◌}
use esphome_hcpbridge.State.{HoermannState}
use esphome_hcpbridge.Entities.Cover.{
  HcpBridgeCover, Publication, CoverOperation, operation_of, same_operation, follow_door,
  on_event_triggered,
}

same_operation→eq : (a b : CoverOperation) → same_operation a b ≡ true → a ≡ b
unfolding same_operation
same_operation→eq a b h = ground arith

same_operation_self : (a : CoverOperation) → same_operation a a ≡ true
unfolding same_operation
same_operation_self a = ground arith

-- What is known after these publications, of what was known before.
unfoldable pub heard : Option (ℕ × CoverOperation) → List Publication → Option (ℕ × CoverOperation)
heard known [] = known
heard known (p ∷ ps) = heard (some (p.position, p.operation)) ps

-- Home Assistant knows what the entity shows, and what the door was last seen to do.
pub record IsTold (e : HcpBridgeCover) (known : Option (ℕ × CoverOperation)) : Type 0 where
  pub knows : e.published ≡ true → known ≡ some (e.position, e.current_operation)
  pub position : e.published ≡ true → e.previous_position ≡ e.position
  pub operation : e.published ≡ true → e.previous_operation ≡ e.current_operation

follow_door-IsTold :
    (e : HcpBridgeCover) (s : HoermannState) (known : Option (ℕ × CoverOperation))
    → IsTold e known
    → IsTold (follow_door e s).0 (heard known (follow_door e s).1)
unfolding follow_door heard
follow_door-IsTold e s known told =
    let op = operation_of s.door e.previous_position s.current_position in
    let same = same_operation→eq e.previous_operation op in
    record {
      knows = ground (arith, told.knows, told.position, told.operation, same);
      position = ground arith;
      operation = ground (arith, same);
    }

-- The publications of the events of a list, and the entity after them.
pub run : HcpBridgeCover → List HoermannState → HcpBridgeCover × List Publication
run e [] = (e, [])
run e (s ∷ ss) =
    let first = on_event_triggered e s in let rest = run first.0 ss in (rest.0, first.1 ++ rest.1)

pub data AllValid : List HoermannState → Type 0 where
  none_left : AllValid []
  valid_then :
      {s : HoermannState} {ss : List HoermannState}
      → s.valid ≡ true
      → AllValid ss
      → AllValid (s ∷ ss)

heard-append :
    (known : Option (ℕ × CoverOperation)) (ps qs : List Publication)
    → heard known (ps ++ qs) ≡ heard (heard known ps) qs
unfolding heard
heard-append known [] qs = refl
heard-append known (p ∷ ps) qs = heard-append _ ps qs

on_event_triggered-IsTold :
    (e : HcpBridgeCover) (s : HoermannState) (known : Option (ℕ × CoverOperation))
    → s.valid ≡ true
    → IsTold e known
    → IsTold (on_event_triggered e s).0 (heard known (on_event_triggered e s).1)
unfolding on_event_triggered
on_event_triggered-IsTold e s known valid told = rw valid (follow_door-IsTold e s known told)

run-IsTold :
    (e : HcpBridgeCover) (known : Option (ℕ × CoverOperation)) {ss : List HoermannState}
    → AllValid ss
    → IsTold e known
    → IsTold (run e ss).0 (heard known (run e ss).1)
unfolding run heard
run-IsTold e known none_left told = told
run-IsTold e known (valid_then {s = s} {ss = ss} valid rest) told =
    let first = on_event_triggered e s in
    rw (heard-append known first.1 (run first.0 ss).1) (
      run-IsTold first.0 (heard known first.1) rest
        (on_event_triggered-IsTold e s known valid told))

event_publishes :
    (e : HcpBridgeCover) (s : HoermannState)
    → s.valid ≡ true
    → ((on_event_triggered e s).0.published ≡ true)
      × ((on_event_triggered e s).0.position ≡ s.current_position)
      × ((on_event_triggered e s).0.current_operation
          ≡ operation_of s.door e.previous_position s.current_position)
unfolding on_event_triggered follow_door
event_publishes e s valid = (ground (arith, valid), ground (arith, valid), ground (arith, valid))

-- From a cover for which what Home Assistant knows is what it shows, and after any reports of a
-- valid state: after one more, what Home Assistant was last told is the position of that report,
-- and the operation that its door state stands for after those positions.
pub run_then-heard :
    (e : HcpBridgeCover) (known : Option (ℕ × CoverOperation)) (ss : List HoermannState)
    (s : HoermannState)
    → IsTold e known
    → AllValid ss
    → s.valid ≡ true
    → heard (heard known (run e ss).1) (on_event_triggered (run e ss).0 s).1
      ≡ some (
        s.current_position,
        operation_of s.door (run e ss).0.previous_position s.current_position,
      )
run_then-heard e known ss s told all valid =
    let before = run e ss in
    let after =
      on_event_triggered-IsTold before.0 s (heard known before.1) valid
        (run-IsTold e known all told) in
    let last = event_publishes before.0 s valid in
    after.knows last.0 ∙ ap₂ (λ (p : ℕ) (o : CoverOperation). some (p, o)) last.1 last.2

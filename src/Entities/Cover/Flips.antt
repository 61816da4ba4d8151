-- ===== src/Entities/Cover/Flips.antt =====
-- Two ways in which what Home Assistant is told of a moving door is not what the door does.
use esphome_hcpbridge.Base.{◌≡◌, ◌<◌, ◌⊎◌, arith, true, false, [], ◌∷◌}
use esphome_hcpbridge.State.{HoermannState, opening, move_half, move_venting}
use esphome_hcpbridge.Entities.Cover.{
  HcpBridgeCover, operation_idle, operation_opening, operation_closing, operation_of,
  same_operation, lose_link, follow_door, on_event_triggered,
}

-- On the way to the half or the venting position, with a position below the last one: a valid
-- report makes the cover close, and the same report once more publishes that it opens.
pub same_event_flips :
    (e : HcpBridgeCover) (s : HoermannState)
    → s.valid ≡ true
    → (s.door ≡ move_half) ⊎ (s.door ≡ move_venting)
    → s.current_position < e.previous_position
    → let first = on_event_triggered e s in
      (first.0.current_operation ≡ operation_closing)
      × ((on_event_triggered first.0 s).1
          ≡ record { position = s.current_position; operation = operation_opening; save = true }
            ∷ [])
unfolding on_event_triggered follow_door operation_of same_operation
same_event_flips e s valid moves falls =
    (ground (arith, valid, moves), ground (arith, valid, moves))

-- From a cover without a warning that has published an opening door and shows the position it
-- last published: a report that the link is down publishes that the door is idle, and a report
-- after it that the link is back and the door still opens, at the same position, publishes
-- nothing, though the cover opens again.
pub link_back_untold :
    (e : HcpBridgeCover) (s t : HoermannState)
    → e.published ≡ true
    → e.warning ≡ false
    → e.position ≡ e.previous_position
    → e.previous_operation ≡ operation_opening
    → s.valid ≡ false
    → t.valid ≡ true
    → t.door ≡ opening
    → t.current_position ≡ e.previous_position
    → let lost = on_event_triggered e s in
      let back = on_event_triggered lost.0 t in
      (lost.1 ≡ record { position = e.position; operation = operation_idle; save = false } ∷ [])
      × (back.1 ≡ [])
      × (back.0.current_operation ≡ operation_opening)
unfolding on_event_triggered follow_door lose_link operation_of same_operation
link_back_untold e s t published quiet still was gone valid opens same = (
  ground (arith, gone, quiet),
  ground (arith, gone, quiet, valid, opens, same, published, was),
  ground (arith, gone, quiet, valid, opens),
)

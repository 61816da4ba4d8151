-- ===== src/Entities/Sensors/Shows.antt =====
-- What the sensors show is what the drive reports, and they show it once.
use esphome_hcpbridge.Base.{◌*◌, ◌≡◌, arith, true, none, some, [], ◌∷◌}
use esphome_hcpbridge.State.{HoermannState, DoorState}
use esphome_hcpbridge.State.Laws.{same_door_self}
use esphome_hcpbridge.Entities.Sensors.{
  HcpBridgeSensor, sensor_event, update_state, differs, shown_position, HcpBridgeTextSensor,
  show_state,
}

-- A sensor has shown the position that it is to show once it was told of it, and says no more.
sensor_event_twice :
    (e : HcpBridgeSensor) (s : HoermannState)
    → s.valid ≡ true
    → ((sensor_event e s).0.previous_position ≡ some (shown_position e s))
      × ((sensor_event (sensor_event e s).0 s).1 ≡ [])
unfolding sensor_event update_state differs
sensor_event_twice e s valid = (ground (arith, valid), ground (arith, valid))

-- Its first valid report is shown, zero too.
sensor_event_first :
    (e : HcpBridgeSensor) (s : HoermannState)
    → s.valid ≡ true
    → e.previous_position ≡ none
    → (sensor_event e s).1 ≡ shown_position e s * 100 ∷ []
unfolding sensor_event update_state differs
sensor_event_first e s valid new = ground (arith, valid, new)

-- The same of the text sensor of the door's state, whether the link is up or not.
show_state_twice :
    (e : HcpBridgeTextSensor) (d : DoorState) → (show_state (show_state e d).0 d).1 ≡ []
unfolding show_state
show_state_twice e d = ground (arith, same_door_self d)

-- ===== src/Component/Tests.antt =====
-- The log and an update at a codec whose ring holds one event.
use esphome_hcpbridge.Base.{arith, [], ◌∷◌}
use esphome_hcpbridge.Events.{HcpEventEntry, busscan}
use esphome_hcpbridge.Ring.{HcpEventRing, empty_ring, push}
use esphome_hcpbridge.Ring.Holds.{Holds, push-Holds}
use esphome_hcpbridge.Ring.Queue.{empty_ring-Holds}
use esphome_hcpbridge.Hcp2.Codec.{Hcp2Codec, initial_codec}
use esphome_hcpbridge.HcpBus.{hcp2_bus}
use esphome_hcpbridge.Component.{update}
use esphome_hcpbridge.Component.Update.{IsUpdated, update-IsUpdated}

abbrev scan : HcpEventEntry
scan = record { event = busscan; a = 1; b = 2; at_ms = 30 }

abbrev one_event : HcpEventRing
one_event = push empty_ring scan

holds : Holds one_event 0 (scan ∷ [])
holds = push-Holds empty_ring-Holds scan (ground arith)

abbrev heard : Hcp2Codec
heard = record initial_codec { events = one_event; last_frame_on = 1000 }

update-IsUpdated_example : IsUpdated heard 30000 (scan ∷ []) (update hcp2_bus heard 30000)
update-IsUpdated_example = update-IsUpdated heard 30000 0 (scan ∷ []) holds

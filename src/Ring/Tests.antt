-- ===== src/Ring/Tests.antt =====
-- Each theorem about the ring at concrete entries.
use esphome_hcpbridge.Base.{◌≡◌, List, [], ◌∷◌, arith}
use esphome_hcpbridge.Events.{HcpEventEntry, busscan}
use esphome_hcpbridge.Ring.{empty_ring, push}
use esphome_hcpbridge.Ring.Holds.{push-Holds}
use esphome_hcpbridge.Ring.Queue.{
  Call, pushes, drains, takes_dropped, run_ring, run_queue, run_ring_refines, empty_ring-Holds,
}

abbrev scan : HcpEventEntry
scan = record { event = busscan; a = 1; b = 2; at_ms = 30 }

abbrev calls : List Call
calls = pushes scan ∷ drains 4 ∷ takes_dropped ∷ []

run_ring_refines_example :
    run_ring (push empty_ring scan) calls
    ≡ run_queue (record { items = scan ∷ []; lost = (push empty_ring scan).dropped }) calls
run_ring_refines_example =
    run_ring_refines calls (scan ∷ []) (push-Holds empty_ring-Holds scan (ground arith))

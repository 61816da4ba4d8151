-- ===== src/Ring/Tasks/Tests.antt =====
-- Two tasks that push at once, and the reader between them.
use esphome_hcpbridge.Base.{◌≡◌, refl, arith, false, length}
use esphome_hcpbridge.Events.{HcpEventEntry, busscan}
use esphome_hcpbridge.Ring.{empty_ring, fresh_slots}
use esphome_hcpbridge.Ring.Tasks.{
  System, start, after_call, after_write, after_read, write_step, read_step, Reach, begins,
  then_steps, calls, writes, reads,
}
use esphome_hcpbridge.Ring.Tasks.Order.{IsOrdered, Reach-IsOrdered}

abbrev scan : HcpEventEntry
scan = record { event = busscan; a = 1; b = 2; at_ms = 30 }

-- Both have called and loaded the position; the first looks at its slot and claims it.
abbrev claimed : System
claimed =
    after_write
      (after_write
        (after_write (after_write (after_call (after_call start 0 scan) 1 scan) false 0) false 1)
        false 0)
      false 0

-- It fills the slot and hands it over, and the reader copies the entry.
abbrev copied : System
copied = after_read (after_read (after_write (after_write claimed false 0) false 0))

claimed-Reach : Reach claimed
claimed-Reach =
    then_steps
      (then_steps
        (then_steps
          (then_steps (then_steps (then_steps begins (calls _ 0 scan refl)) (calls _ 1 scan refl))
            (writes _ false 0))
          (writes _ false 1))
        (writes _ false 0))
      (writes _ false 0)

copied-Reach : Reach copied
copied-Reach =
    then_steps
      (then_steps (then_steps (then_steps claimed-Reach (writes _ false 0)) (writes _ false 0))
        (reads _))
      (reads _)

one_claim : length copied.claims ≡ 1
unfolding write_step read_step empty_ring fresh_slots
one_claim = refl

one_copy : length copied.out ≡ 1
unfolding write_step read_step empty_ring fresh_slots
one_copy = refl

Reach-IsOrdered_example : IsOrdered copied.claims copied.out
Reach-IsOrdered_example = Reach-IsOrdered copied-Reach (omega (arith, one_claim))

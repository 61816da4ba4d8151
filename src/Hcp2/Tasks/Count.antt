-- ===== src/Hcp2/Tasks/Count.antt =====
-- What the bus task of hcp2_codec.cpp has in hand of the slot, and what waits there, against the
-- presses that were accepted.
use esphome_hcpbridge.Base.{ℕ, ◌+◌, ◌≤◌, ◌≡◌, ◌⊎◌, Bool, true, false, not, ◌&&◌, if◌then◌else◌}
use esphome_hcpbridge.State.{HoermannCommand, nothing, stop, is_nothing}
use esphome_hcpbridge.Hcp2.Tasks.{Bus, aging, dropping, halting, clearing, targeting}

-- What the bus task has in hand, and may still send.
unfoldable pub in_hand : Bus → ℕ
in_hand (aging cmd) = if is_nothing cmd then 0 else 1
in_hand (halting cmd) = if is_nothing cmd then 0 else 1
in_hand (clearing cmd) = 1
in_hand (targeting cmd) = 1
in_hand _ = 0

-- Whether the slot may still hold a copy of the press that was loaded, and of which.
unfoldable pub copy_of : Bus → HoermannCommand
copy_of (aging cmd) = cmd
copy_of (dropping cmd) = cmd
copy_of (halting cmd) = stop
copy_of (clearing cmd) = cmd
copy_of _ = nothing

unfoldable pub has_copy : Bus → Bool
has_copy (aging cmd) = true
has_copy (dropping cmd) = true
has_copy (halting cmd) = true
has_copy (clearing cmd) = true
has_copy _ = false

-- The press in the slot, unless it is the copy of the one in hand.
abbrev pub in_slot : HoermannCommand → Bus → Bool → ℕ
in_slot slot b filled = if is_nothing slot then 0 else (if has_copy b && not filled then 0 else 1)

-- What went out, what is in hand and what waits are covered by the presses that were accepted.
pub record IsOwed (slot : HoermannCommand) (b : Bus) (filled : Bool) (sent accepted : ℕ)
    : Type 0 where
  pub paid : sent + in_hand b + in_slot slot b filled ≤ accepted
  pub copy : has_copy b ≡ true → filled ≡ false → (is_nothing slot ≡ true) ⊎ (slot ≡ copy_of b)

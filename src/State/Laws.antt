-- ===== src/State/Laws.antt =====
-- The tests on commands, links and door states, for proofs that keep them shut.
use esphome_hcpbridge.Base.{◌≡◌, refl, true, false, arith}
use esphome_hcpbridge.State.{
  HoermannCommand, nothing, impulse, stop, is_nothing, is_stop, same_command, DoorState, same_door,
}

pub is_nothing-nothing : is_nothing nothing ≡ true
unfolding is_nothing
is_nothing-nothing = refl

pub is_nothing-impulse : is_nothing impulse ≡ false
unfolding is_nothing
is_nothing-impulse = refl

pub is_nothing-stop : is_nothing stop ≡ false
unfolding is_nothing
is_nothing-stop = refl

pub is_stop-stop : is_stop stop ≡ true
unfolding is_stop
is_stop-stop = refl

pub is_stop-nothing : is_stop nothing ≡ false
unfolding is_stop
is_stop-nothing = refl

pub is_stop-impulse : is_stop impulse ≡ false
unfolding is_stop
is_stop-impulse = refl

pub same_command_self : (c : HoermannCommand) → same_command c c ≡ true
unfolding same_command
same_command_self c = ground arith

pub is_nothing→eq : (c : HoermannCommand) → is_nothing c ≡ true → c ≡ nothing
unfolding is_nothing
is_nothing→eq c h = ground arith

pub is_stop→eq : (c : HoermannCommand) → is_stop c ≡ true → c ≡ stop
unfolding is_stop
is_stop→eq c h = ground arith

pub same_command→eq : (a b : HoermannCommand) → same_command a b ≡ true → a ≡ b
unfolding same_command
same_command→eq a b h = ground arith

pub same_door→eq : (a b : DoorState) → same_door a b ≡ true → a ≡ b
unfolding same_door
same_door→eq a b h = ground arith

pub same_door_self : (a : DoorState) → same_door a a ≡ true
unfolding same_door
same_door_self a = ground arith

-- ===== src/Entities/Tests.antt =====
-- Each theorem about the entities at concrete doors.
use esphome_hcpbridge.Base.{
  ◌≡◌, not, ◌&&◌, ◌||◌, if◌then◌else◌, inl, refl, arith, Bool, true, false, some, none, [], ◌∷◌, ℕ,
  pos, ◌==◌,
}
use esphome_hcpbridge.State.{HoermannState, initial_state, opening, move_half}
use esphome_hcpbridge.Hcp2.Codec.{Hcp2Codec, initial_codec}
use esphome_hcpbridge.HcpBus.{hcp2_bus}
use esphome_hcpbridge.HcpBus.Taken.{free}
use esphome_hcpbridge.Entities.Cover.{
  HcpBridgeCover, operation_idle, operation_opening, operation_closing, operation_of, publication,
  Floats, CoverCall, CallClock, control, on_event_triggered,
}
use esphome_hcpbridge.Entities.Cover.Told.{
  IsTold, heard, run, none_left, valid_then, run_then-heard,
}
use esphome_hcpbridge.Entities.Cover.Flips.{same_event_flips, link_back_untold}
use esphome_hcpbridge.Entities.Cover.Refusals.{is_taken, wanted, control_one}
use esphome_hcpbridge.Entities.Light
use esphome_hcpbridge.Entities.Light.{LightParts, HcpBridgeLight, output_write_state}
use esphome_hcpbridge.Entities.Light.Echo.{LightLaws, corrected_then-write_state}
use esphome_hcpbridge.Entities.Switch
use esphome_hcpbridge.Entities.Switch.{switch_half, next_unknown, shows, at_target}
use esphome_hcpbridge.Entities.Switch.Honest.{asked, is_there, write_state_lem}

-- A new cover, and two reports of a door on its way.
abbrev new_cover : HcpBridgeCover
new_cover = record {
  position = 0;
  current_operation = operation_idle;
  warning = false;
  published = false;
  previous_position = 0;
  previous_operation = operation_idle;
}

abbrev at_40 : HoermannState
at_40 = record initial_state { valid = true; door = opening; current_position = 40 }

abbrev at_60 : HoermannState
at_60 = record initial_state { valid = true; door = opening; current_position = 60 }

untold : IsTold new_cover none
untold = record { knows = ground arith; position = ground arith; operation = ground arith }

run_then-heard_example :
    heard
      (heard none (run new_cover (at_40 ∷ [])).1)
      (on_event_triggered (run new_cover (at_40 ∷ [])).0 at_60).1
    ≡ some (60, operation_of opening (run new_cover (at_40 ∷ [])).0.previous_position 60)
run_then-heard_example =
    run_then-heard new_cover none (at_40 ∷ []) at_60 untold (valid_then refl none_left) refl

-- A cover that has told of an opening door at 100.
abbrev told_opening : HcpBridgeCover
told_opening = record {
  position = 100;
  current_operation = operation_opening;
  warning = false;
  published = true;
  previous_position = 100;
  previous_operation = operation_opening;
}

abbrev falling : HoermannState
falling = record initial_state { valid = true; door = move_half; current_position = 98 }

same_event_flips_example :
    ((on_event_triggered told_opening falling).0.current_operation ≡ operation_closing)
    × ((on_event_triggered (on_event_triggered told_opening falling).0 falling).1
        ≡ record { position = 98; operation = operation_opening; save = true } ∷ [])
same_event_flips_example = same_event_flips told_opening falling refl (inl refl) (ground arith)

abbrev at_100 : HoermannState
at_100 = record initial_state { valid = true; door = opening; current_position = 100 }

link_back_untold_example :
    ((on_event_triggered told_opening initial_state).1
      ≡ record { position = 100; operation = operation_idle; save = false } ∷ [])
    × ((on_event_triggered (on_event_triggered told_opening initial_state).0 at_100).1 ≡ [])
    × ((on_event_triggered
          (on_event_triggered told_opening initial_state).0
          at_100).0.current_operation
        ≡ operation_opening)
link_back_untold_example =
    link_back_untold told_opening initial_state at_100 refl refl refl refl refl refl refl refl

-- Positions of calls as whole percentages.
abbrev whole : Floats ℕ
whole = record { is_one = λ p. p == 100; is_zero = λ p. p == 0; percent = pos }

abbrev all_open : CoverCall ℕ
all_open = record { stop = false; position = some 100; toggle = false }

abbrev at_once : CallClock
at_once = record { stop = 7; position = 7; toggle = 7 }

control_one_example :
    let r = control hcp2_bus whole new_cover initial_codec all_open at_once in
    (r.1 ≡ (if is_taken whole all_open initial_codec then [] else publication new_cover true ∷ []))
    × (r.0.next_command ≡ (
        if is_taken whole all_open initial_codec
        then wanted whole all_open
        else initial_codec.next_command))
    × (r.0.state ≡ initial_codec.state)
control_one_example = control_one whole new_cover initial_codec all_open at_once refl (ground arith)

write_state_lem_example :
    let r = Switch.write_state hcp2_bus switch_half initial_codec 7 true in
    (r.1 ≡ (
      if is_there switch_half true initial_codec || free initial_codec
      then []
      else next_unknown ∷ shows (at_target switch_half initial_codec.state) ∷ []))
    × (r.0.next_command ≡ (
        if not (is_there switch_half true initial_codec) && free initial_codec
        then asked switch_half true
        else initial_codec.next_command))
    × (r.0.state ≡ initial_codec.state)
write_state_lem_example = write_state_lem switch_half initial_codec 7 true

-- A light that is a Boolean, over the newer bus.
abbrev lamp_parts : LightParts Bool Hcp2Codec
lamp_parts = record {
  current_values_as_binary = λ l. l;
  is_on = λ l. l;
  perform_turn_on = λ l. true;
  perform_turn_off = λ l. false;
  output_turn_on = λ b now. (output_write_state hcp2_bus b now true).bus;
  output_turn_off = λ b now. (output_write_state hcp2_bus b now false).bus;
}

lamp_laws : LightLaws hcp2_bus lamp_parts
lamp_laws = record {
  shows_on = λ l. refl;
  shows_off = λ l. refl;
  writes = λ l. refl;
  output_on = λ b now. refl;
  output_off = λ b now. refl;
}

abbrev lit : Hcp2Codec
lit = record initial_codec { state = record initial_state { valid = true; lamp = true } }

abbrev dark : HcpBridgeLight Bool
dark = record { state = some false; saw_drive = false }

corrected_then-write_state_example :
    ((Light.on_event_triggered hcp2_bus lamp_parts dark lit).state
      ≡ some (Light.correct hcp2_bus lamp_parts false true))
    × (lamp_parts.is_on (Light.correct hcp2_bus lamp_parts false true) ≡ true)
    × (Light.write_state hcp2_bus lamp_parts
          (Light.on_event_triggered hcp2_bus lamp_parts dark lit)
          lit
          7
          (Light.correct hcp2_bus lamp_parts false true)
        ≡ (Light.on_event_triggered hcp2_bus lamp_parts dark lit, lit))
corrected_then-write_state_example =
    corrected_then-write_state hcp2_bus lamp_parts lamp_laws dark lit 7 false refl refl

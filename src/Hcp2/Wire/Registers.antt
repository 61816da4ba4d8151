-- ===== src/Hcp2/Wire/Registers.antt =====
-- The answer registers of hcp2_codec.cpp over a frame: how many there are, and that the two which
-- press keys are empty unless `lastSentCommand` notes what they press.
use esphome_hcpbridge.Base.{
  ℕ, ◌*◌, ◌^◌, ◌<◌, ◌≡◌, refl, ap, ap₂, ◌∙◌, Bool, true, false, List, arith, get_or, set, length,
  length-set, get_or-set_self, get_or-set_ne, u16, inl, inr, Bool-cases,
}
use esphome_hcpbridge.State.{HoermannCommand, is_nothing, command_values}
use esphome_hcpbridge.State.Laws.{is_nothing→eq}
use esphome_hcpbridge.Events.{HcpEvent}
use esphome_hcpbridge.Hcp2.Codec.{Hcp2Codec, clear_if_still}
use esphome_hcpbridge.Hcp2.Watch.{check_command_effect}
use esphome_hcpbridge.Hcp2.Poll.{
  honour_cancel, drop_stale, resolve_stop, start_watch, choose_command, write_command, serve_loaded,
  set_command_values_to_read, start_identity, ask_identity,
}
use esphome_hcpbridge.Hcp2.Wire.{holds_key}

-- The eight registers.
abbrev pub IsWide : List ℕ → Type 0
IsWide regs = length regs ≡ 8

-- What the answer registers press.
abbrev pub keyed : List ℕ → Bool
keyed regs = holds_key (u16 (get_or regs 2 0)) (u16 (get_or regs 3 0))

pub IsWide-set : (regs : List ℕ) (i v : ℕ) → IsWide regs → IsWide (set regs i v)
IsWide-set regs i v wide = length-set regs i v ∙ wide

registers-before_choice :
    (c : Hcp2Codec) (now : ℕ) → (honour_cancel (check_command_effect c now)).reg_resp ≡ c.reg_resp
unfolding honour_cancel check_command_effect
registers-before_choice c now = ground arith

registers-drop_stale :
    (c : Hcp2Codec) (now : ℕ) (loaded : HoermannCommand)
    → (drop_stale c now loaded).0.reg_resp ≡ c.reg_resp
unfolding drop_stale clear_if_still
registers-drop_stale c now loaded = ground arith

registers-resolve_stop :
    (c : Hcp2Codec) (cmd : HoermannCommand) → (resolve_stop c cmd).0.reg_resp ≡ c.reg_resp
unfolding resolve_stop clear_if_still
registers-resolve_stop c cmd = ground arith

registers-choose_command :
    (c : Hcp2Codec) (now : ℕ) (cmd : HoermannCommand)
    → (choose_command c now cmd).0.reg_resp ≡ c.reg_resp
unfolding choose_command start_watch clear_if_still
registers-choose_command c now cmd = ground arith

registers-write_command :
    (c : Hcp2Codec) (now : ℕ) (cmd : HoermannCommand) (why : HcpEvent)
    → let d = write_command c now cmd why in
      let v = command_values d.last_sent_command in
      d.reg_resp ≡ set (set c.reg_resp 2 v.reg2) 3 v.reg3
unfolding write_command
registers-write_command c now cmd why = elim (Bool-cases (is_nothing cmd)) [
  | inl bare ↦ rw bare refl
  | inr some_key ↦ rw some_key refl
]

-- A poll writes the row of the command that it notes, and no other register.
pub registers-poll :
    (c : Hcp2Codec) (now : ℕ)
    → let d = set_command_values_to_read c now in
      let v = command_values d.last_sent_command in
      d.reg_resp ≡ set (set c.reg_resp 2 v.reg2) 3 v.reg3
unfolding set_command_values_to_read serve_loaded
registers-poll c now =
    let watched = honour_cancel (check_command_effect c now) in
    let fresh = drop_stale watched now watched.next_command in
    let resolved = resolve_stop fresh.0 fresh.1 in
    let chosen = choose_command resolved.0 now resolved.1 in
    let d = set_command_values_to_read c now in
    let v = command_values d.last_sent_command in
    registers-write_command chosen.0 now chosen.1 chosen.2
    ∙ ap (λ (regs : List ℕ). set (set regs 2 v.reg2) 3 v.reg3)
        (registers-choose_command resolved.0 now resolved.1
          ∙ registers-resolve_stop fresh.0 fresh.1
          ∙ registers-drop_stale watched now watched.next_command
          ∙ registers-before_choice c now)

-- The two words after they are written.
pub words-set :
    (regs : List ℕ) (v2 v3 : ℕ)
    → IsWide regs
    → (get_or (set (set regs 2 v2) 3 v3) 2 0 ≡ v2) × (get_or (set (set regs 2 v2) 3 v3) 3 0 ≡ v3)
words-set regs v2 v3 wide =
    let two : 2 < length regs = omega (arith, wide) in
    let three : 3 < length (set regs 2 v2) = omega (arith, wide, length-set regs 2 v2) in
    (
      get_or-set_ne (set regs 2 v2) 3 2 v3 0 (λ e. omega (arith, e))
          ∙ get_or-set_self regs 2 v2 0 two,
      get_or-set_self (set regs 2 v2) 3 v3 0 three,
    )

-- The two words of a poll.
pub words-poll :
    (c : Hcp2Codec) (now : ℕ)
    → IsWide c.reg_resp
    → let d = set_command_values_to_read c now in
      let v = command_values d.last_sent_command in
      (get_or d.reg_resp 2 0 ≡ v.reg2) × (get_or d.reg_resp 3 0 ≡ v.reg3)
words-poll c now wide =
    let v = command_values (set_command_values_to_read c now).last_sent_command in
    rw (registers-poll c now) (words-set c.reg_resp v.reg2 v.reg3 wide)

-- All registers are there, and nothing is pressed that is not noted.
pub record IsNoted (c : Hcp2Codec) : Type 0 where
  pub wide : IsWide c.reg_resp
  pub noted : is_nothing c.last_sent_command ≡ true → keyed c.reg_resp ≡ false

pub keyed_words :
    (regs : List ℕ) (v2 v3 : ℕ)
    → IsWide regs
    → keyed (set (set regs 2 v2) 3 v3) ≡ holds_key (u16 v2) (u16 v3)
keyed_words regs v2 v3 wide =
    let words = words-set regs v2 v3 wide in
    ap₂ (λ (a b : ℕ). holds_key (u16 a) (u16 b)) words.0 words.1

pub poll-IsNoted :
    (c : Hcp2Codec) (now : ℕ) → IsWide c.reg_resp → IsNoted (set_command_values_to_read c now)
unfolding holds_key command_values
poll-IsNoted c now wide =
    let d = set_command_values_to_read c now in
    let v = command_values d.last_sent_command in
    let regs = registers-poll c now in
    record {
      wide = rw regs (IsWide-set _ 3 v.reg3 (IsWide-set c.reg_resp 2 v.reg2 wide));
      noted = λ bare.
          let is_bare = is_nothing→eq d.last_sent_command bare in
          ap keyed regs ∙ keyed_words c.reg_resp v.reg2 v.reg3 wide ∙ rw is_bare refl;
    }

pub start_identity-IsNoted : (c : Hcp2Codec) → IsNoted c → IsNoted (start_identity c)
unfolding start_identity
start_identity-IsNoted c n = record {
  wide = ground (arith, n.wide);
  noted = ground (arith, n.noted);
}

-- A request stands in the high byte.
request_is_no_key : (w : ℕ) → holds_key (u16 (u16 (w * 2 ^ 8))) (u16 0) ≡ false
unfolding holds_key
request_is_no_key w = ground arith

pub ask_identity-IsNoted : (c : Hcp2Codec) (now : ℕ) → IsNoted c → IsNoted (ask_identity c now)
unfolding ask_identity
ask_identity-IsNoted c now n =
    let word = u16 (c.identity_wanted * 2 ^ 8) in
    let one = IsWide-set c.reg_resp 1 0x22 n.wide in
    record {
      wide = ground (arith, n.wide, IsWide-set _ 3 0 (IsWide-set _ 2 word one));
      noted = ground (
        arith,
        n.noted,
        keyed_words (set c.reg_resp 1 0x22) word 0 one,
        request_is_no_key c.identity_wanted,
      );
    }

-- ===== src/Hcp2/Wire/Served.antt =====
-- A whole read/write frame of hcp2_codec.cpp: what its answer presses is noted.
use esphome_hcpbridge.Base.{
  ℕ, ◌≤◌, ◌≡◌, refl, ap₂, ◌∙◌, Bool, true, false, ◌&&◌, ◌==◌, arith, set, get_or-set_ne, u16,
  if◌then◌else◌,
}
use esphome_hcpbridge.State.{is_nothing}
use esphome_hcpbridge.Hcp2.Codec.{Hcp2Codec, cmd_status}
use esphome_hcpbridge.Hcp2.Poll.{
  set_command_values_to_read, start_identity, ask_identity, mark_registered, report_unknown_shape,
  clear_status, answer_pause, status_poll, blank_status, answer_other, on_request_hook,
}
use esphome_hcpbridge.Hcp2.Wire.{holds_key}
use esphome_hcpbridge.Hcp2.Wire.Registers.{
  IsWide, keyed, IsWide-set, IsNoted, keyed_words, poll-IsNoted, start_identity-IsNoted,
  ask_identity-IsNoted,
}
use esphome_hcpbridge.Hcp2.Codec.{push_event}
use esphome_hcpbridge.Events.{busscan, empty_command}
use esphome_hcpbridge.Base.{leb}

-- What a step leaves of the registers, where the answer has so many words.
pub record IsServed (words : ℕ) (c : Hcp2Codec) : Type 0 where
  pub wide : IsWide c.reg_resp
  pub noted : 4 ≤ words → is_nothing c.last_sent_command ≡ true → keyed c.reg_resp ≡ false

pub branch :
    (P : Hcp2Codec → Type 0) (b : Bool) (x y : Hcp2Codec)
    → (b ≡ true → P x)
    → (b ≡ false → P y)
    → P (if b then x else y)
branch P true x y h k = h refl
branch P false x y h k = k refl

IsWide-clear_status : (c : Hcp2Codec) → IsWide c.reg_resp → IsWide (clear_status c).reg_resp
IsWide-clear_status c wide = IsWide-set _ 7 0 (
    IsWide-set _ 6 0
      (IsWide-set _ 5 0 (IsWide-set _ 4 0 (IsWide-set _ 1 0x01 (IsWide-set c.reg_resp 0 0 wide)))))

answer_pause-IsNoted : (c : Hcp2Codec) → IsWide c.reg_resp → IsNoted (answer_pause c)
unfolding answer_pause holds_key
answer_pause-IsNoted c wide =
    let one = IsWide-set c.reg_resp 1 0x29 wide in
    record {
      wide = IsWide-set _ 3 0 (IsWide-set _ 2 0x02 one);
      noted = λ bare. keyed_words (set c.reg_resp 1 0x29) 0x02 0 one;
    }

mark_registered-IsNoted : (c : Hcp2Codec) → IsNoted c → IsNoted (mark_registered c)
unfolding mark_registered
mark_registered-IsNoted c n = record { wide = n.wide; noted = n.noted }

status_poll-IsNoted : (c : Hcp2Codec) (now : ℕ) → IsWide c.reg_resp → IsNoted (status_poll c now)
unfolding status_poll
status_poll-IsNoted c now wide =
    let cleared = clear_status c in
    let ready = IsWide-clear_status c wide in
    let served = set_command_values_to_read cleared now in
    let asked = ask_identity (start_identity served) now in
    branch (λ (d : Hcp2Codec). IsNoted d) c.pause_requested (answer_pause cleared)
      (mark_registered asked) (λ held. answer_pause-IsNoted cleared ready)
      (λ live. mark_registered-IsNoted asked (
        ask_identity-IsNoted (start_identity served) now
          (start_identity-IsNoted served (poll-IsNoted cleared now ready))))

report_unknown_shape-IsNoted :
    (c : Hcp2Codec) (now fc c1 c2 : ℕ) → IsNoted c → IsNoted (report_unknown_shape c now fc c1 c2)
unfolding report_unknown_shape
report_unknown_shape-IsNoted c now fc c1 c2 n = record {
  wide = ground (arith, n.wide);
  noted = ground (arith, n.noted);
}

blank_status-IsNoted : (c : Hcp2Codec) → IsNoted (blank_status c)
unfolding holds_key
blank_status-IsNoted c = record { wide = refl; noted = λ bare. refl }

-- The answers of two words leave the others as they were.
empty_command-IsServed :
    (words v0 v1 : ℕ) (c : Hcp2Codec)
    → words ≡ 2
    → IsWide c.reg_resp
    → IsServed words (record c { reg_resp = set (set c.reg_resp 0 v0) 1 v1 })
empty_command-IsServed words v0 v1 c two wide = record {
  wide = IsWide-set _ 1 v1 (IsWide-set c.reg_resp 0 v0 wide);
  noted = λ long bare. absurd (omega (arith, long, two));
}

busscan-IsNoted :
    (c : Hcp2Codec) (now : ℕ)
    → IsWide c.reg_resp
    → IsNoted (record (push_event c busscan 0 0 now) {
      reg_resp = set (set (set (set (set c.reg_resp 0 0) 1 0x0005) 2 0x0430) 3 0x10ff) 4 0xa845;
    })
unfolding holds_key
busscan-IsNoted c now wide =
    let front = set (set c.reg_resp 0 0) 1 0x0005 in
    let ready = IsWide-set _ 1 0x0005 (IsWide-set c.reg_resp 0 0 wide) in
    let scan = set (set front 2 0x0430) 3 0x10ff in
    record {
      wide = IsWide-set _ 4 0xa845 (IsWide-set _ 3 0x10ff (IsWide-set _ 2 0x0430 ready));
      noted = λ bare.
          ap₂ (λ (a b : ℕ). holds_key (u16 a) (u16 b))
            (get_or-set_ne scan 4 2 0xa845 0 (λ e. omega (arith, e)))
            (get_or-set_ne scan 4 3 0xa845 0 (λ e. omega (arith, e)))
          ∙ keyed_words front 0x0430 0x10ff ready;
    }

pub of_noted : (words : ℕ) (c : Hcp2Codec) → IsNoted c → IsServed words c
of_noted words c n = record { wide = n.wide; noted = λ long. n.noted }

answer_other-IsServed :
    (c : Hcp2Codec) (now c1 c2 : ℕ)
    → IsWide c.reg_resp
    → IsServed c1 (answer_other c now 0x17 c1 c2)
unfolding answer_other
answer_other-IsServed c now c1 c2 wide =
    let P : Hcp2Codec → Type 0 = λ d. IsServed c1 d in
    branch P (c2 == 0x02 && c1 == 0x02) _ _
      (λ empty.
        empty_command-IsServed c1 0x0004 0 (push_event c empty_command 0 0 now)
          (ground (arith, empty)) wide)
      (λ more.
        branch P (c2 == 0x03 && c1 == 0x05) _ _ (λ scan. of_noted c1 _ (busscan-IsNoted c now wide))
          (λ other.
            branch P (leb 0x03 c2) (blank_status c) _
              (λ long. of_noted c1 _ (blank_status-IsNoted c))
              (λ short. of_noted c1 _ (
                report_unknown_shape-IsNoted (blank_status c) now 0x17 c1 c2
                  (blank_status-IsNoted c)))))

pub on_request_hook-IsServed :
    (c : Hcp2Codec) (now c1 c2 command : ℕ)
    → IsWide c.reg_resp
    → IsServed c1 (on_request_hook c now 0x17 c1 c2 command)
unfolding on_request_hook mark_registered
on_request_hook-IsServed c now c1 c2 command wide =
    let other = answer_other-IsServed c now c1 c2 wide in
    branch (λ (d : Hcp2Codec). IsServed c1 d) (c2 == 0x02 && c1 == 0x08 && command == cmd_status)
      (status_poll c now) (mark_registered (answer_other c now 0x17 c1 c2))
      (λ poll. of_noted c1 (status_poll c now) (status_poll-IsNoted c now wide))
      (λ other_shape. record { wide = other.wide; noted = other.noted })

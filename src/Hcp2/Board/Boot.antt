-- ===== src/Hcp2/Board/Boot.antt =====
-- The first broadcast after a start, where the drive reports a door that neither moves nor stands
-- at an end.
use esphome_hcpbridge.Base.{
  ℕ, zero, suc, ◌+◌, ◌*◌, ◌<◌, ◌≤◌, ◌≡◌, refl, sym, ap, subst, ◌∙◌, true, ◌==◌, List, arith,
  hi_byte, lo_byte, get_or, length, drop, if◌then◌else◌, some, Bool-cases, inl, inr, ==→eq,
}
use esphome_hcpbridge.State.{closed, stopped, venting, set_goto_position, set_valid, set_link}
use esphome_hcpbridge.Hcp2.Codec.{Hcp2Codec, initial_codec, rd16}
use esphome_hcpbridge.Hcp2.Poll.{on_request_hook, mark_registered}
use esphome_hcpbridge.Hcp2.Commands.{stop_door}
use esphome_hcpbridge.Hcp2.Broadcast.{decode_state, write_bcast, write_bcasts, check_goto_target}
use esphome_hcpbridge.Hcp2.Frame.{notice_frame, on_frame}
use esphome_hcpbridge.Hcp2.Board.{Board}
use esphome_hcpbridge.Hcp2.Board.Frames.{board-check_goto_target}
use esphome_hcpbridge.Hcp2.Board.Hooks.{
  registers-write_bcast, door-write_bcast, door-write_bcast_other, valid-write_bcast,
}
use esphome_hcpbridge.Hcp2.Board.Mirror.{start-IsMirror, get_or-set_any}
use esphome_hcpbridge.Hcp2.Board.Words.{
  IsBroadcast, on_frame-IsShown_after, hooked, on_frame-IsBroadcast, board-hooked, room-hooked,
  rd16-drop, hi_byte-rd16, lo_byte-rd16, length-write_bcast,
}

-- A state word whose high byte is zero, after one whose high byte was zero.
door-write_bcast_zero :
    (c : Hcp2Codec) (i val : ℕ)
    → i < length c.reg_bcast
    → hi_byte (get_or c.reg_bcast 2 0) ≡ 0
    → (i ≡ 2 → hi_byte val ≡ 0)
    → ((write_bcast c i val).state.door ≡ c.state.door)
      × (hi_byte (get_or (write_bcast c i val).reg_bcast 2 0) ≡ 0)
door-write_bcast_zero c i val within before written =
    let regs = registers-write_bcast c i val in
    let word = get_or-set_any c.reg_bcast i 2 val within in
    elim (Bool-cases (i == 2)) [
      | inl equal ↦
          let two = ==→eq i 2 equal in
          let zero_too = written two in
          (
            subst (λ (k : ℕ). (write_bcast c k val).state.door ≡ c.state.door) (sym two)
                ((door-write_bcast c val).0 (ground (arith, before, zero_too))),
            rw (regs, word, equal) zero_too,
          )
      | inr other ↦
          (door-write_bcast_other c i val (λ e. ground (arith, e)), rw (regs, word, other) before)
    ]

door-write_bcasts_zero :
    (left i : ℕ) (wdata : List ℕ) (c : Hcp2Codec)
    → i + left ≤ length c.reg_bcast
    → hi_byte (get_or c.reg_bcast 2 0) ≡ 0
    → hi_byte (rd16 wdata 4) ≡ 0
    → (write_bcasts left i wdata c).state.door ≡ c.state.door
unfolding write_bcasts
door-write_bcasts_zero zero i wdata c within before last = refl
door-write_bcasts_zero (suc left) i wdata c within before last =
    let val = rd16 wdata (2 * i) in
    let first =
      door-write_bcast_zero c i val (omega (arith, within)) before
        (λ e. subst (λ (k : ℕ). hi_byte (rd16 wdata (2 * k)) ≡ 0) (sym e) last) in
    door-write_bcasts_zero left (i + 1) wdata (write_bcast c i val)
      (ground (arith, within, length-write_bcast c i val)) first.1 last
    ∙ first.0

valid-write_bcasts :
    (left i : ℕ) (wdata : List ℕ) (c : Hcp2Codec)
    → (write_bcasts left i wdata c).state.valid ≡ c.state.valid
unfolding write_bcasts
valid-write_bcasts zero i wdata c = refl
valid-write_bcasts (suc left) i wdata c =
    valid-write_bcasts left (i + 1) wdata (write_bcast c i (rd16 wdata (2 * i)))
    ∙ valid-write_bcast c i (rd16 wdata (2 * i))

valid-on_request_hook :
    (c : Hcp2Codec) (now cnt : ℕ) → (on_request_hook c now 0x10 cnt 0 0).state.valid ≡ true
unfolding on_request_hook mark_registered set_valid set_link
valid-on_request_hook c now cnt = ground arith

valid-check_goto_target :
    (c : Hcp2Codec) (now : ℕ) → (check_goto_target c now).state.valid ≡ c.state.valid
unfolding check_goto_target stop_door set_goto_position
valid-check_goto_target c now = ground arith

-- After a broadcast that is accepted, what is shown is valid.
pub valid-on_frame :
    (c : Hcp2Codec) (now : ℕ) (raw : List ℕ)
    → IsBroadcast raw
    → (on_frame c now raw).0.state.valid ≡ true
valid-on_frame c now raw b =
    let cnt = rd16 raw 4 in
    let start = hooked c now raw in
    rw (on_frame-IsBroadcast c now raw b) (
      valid-check_goto_target (write_bcasts cnt 0 (drop 7 raw) start) now
      ∙ valid-write_bcasts cnt 0 (drop 7 raw) start
      ∙ valid-on_request_hook (notice_frame c now) now cnt)

decode_state-zero :
    (w : ℕ) → hi_byte w ≡ 0 → decode_state w ≡ some (if lo_byte w == 0x61 then venting else stopped)
unfolding decode_state
decode_state-zero w zero_high = rw zero_high refl

-- If the first frame after the constructor is a broadcast that is accepted, of at least seven
-- registers, whose state word has the high byte zero: the state is valid, has the broadcast's
-- position, and shows the door as closed, though the word stands for a stopped or a venting door.
pub boot_shows_closed :
    (now : ℕ) (raw : List ℕ)
    → IsBroadcast raw
    → get_or raw 11 0 ≡ 0
    → let s = (on_frame initial_codec now raw).0.state in
      (s.valid ≡ true)
      × (s.door ≡ closed)
      × (s.current_position ≡ get_or raw 10 0)
      × (decode_state (rd16 raw 11) ≡ some (if get_or raw 12 0 == 0x61 then venting else stopped))
unfolding initial_codec
boot_shows_closed now raw b standing =
    let cnt = rd16 raw 4 in
    let start = hooked initial_codec now raw in
    let wdata = drop 7 raw in
    let written = write_bcasts cnt 0 wdata start in
    let same_board = board-hooked initial_codec now raw in
    let last : hi_byte (rd16 wdata 4) ≡ 0 =
      rw (rd16-drop 7 4 raw, hi_byte-rd16 raw 11 b.bytes) standing in
    (
      valid-on_frame initial_codec now raw b,
      rw (on_frame-IsBroadcast initial_codec now raw b) (
          ap (λ (x : Board). x.shown.door) (board-check_goto_target written now)
          ∙ door-write_bcasts_zero cnt 0 wdata start
              (room-hooked initial_codec now raw start-IsMirror b)
              (ap (λ (x : Board). hi_byte (get_or x.registers 2 0)) same_board) last
          ∙ ap (λ (x : Board). x.shown.door) same_board),
      (on_frame-IsShown_after initial_codec now raw start-IsMirror b).position,
      decode_state-zero (rd16 raw 11) (hi_byte-rd16 raw 11 b.bytes ∙ standing)
          ∙ rw (lo_byte-rd16 raw 11 b.bytes) refl,
    )

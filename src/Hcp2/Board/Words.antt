-- ===== src/Hcp2/Board/Words.antt =====
-- A broadcast that is accepted is what the state shows afterwards.
use esphome_hcpbridge.Base.{
  ℕ, zero, suc, ◌+◌, ◌*◌, ◌<◌, ◌≤◌, ◌≡◌, refl, sym, ap, subst, ◌∙◌, true, false, not, ◌&&◌, ◌||◌,
  ◌==◌, ltb, List, [], ◌∷◌, arith, hi_byte, lo_byte, get_or, length, drop, ◌/◌, ◌%◌, ◌^◌, some,
  none, ◌⊎◌, Option-cases, length-set, get_or-set_self, get_or-set_ne, Bool-cases, inl, inr,
  AllBytes, get_or-IsByte, ==→eq,
}
use esphome_hcpbridge.State.{HoermannState, DoorState}
use esphome_hcpbridge.Hcp2Frame.{hcp2_validate}
use esphome_hcpbridge.Hcp2.Codec.{Hcp2Codec, initial_codec, rd16, reg_bcast_base}
use esphome_hcpbridge.Hcp2.Poll.{on_request_hook}
use esphome_hcpbridge.Hcp2.Broadcast.{decode_state, write_bcast, write_bcasts, check_goto_target}
use esphome_hcpbridge.Hcp2.Frame.{
  notice_frame, broadcast_fits, on_broadcast, on_valid_frame, on_frame,
}
use esphome_hcpbridge.Hcp2.Board.{Board, board, board-on_request_hook}
use esphome_hcpbridge.Hcp2.Board.Frames.{board-notice_frame, board-check_goto_target}
use esphome_hcpbridge.Hcp2.Board.Hooks.{registers-write_bcast}
use esphome_hcpbridge.Hcp2.Board.Mirror.{IsMirror, start-IsMirror}
use esphome_hcpbridge.Hcp2.Board.Histories.{on_frame-IsMirror, run-IsMirror}
use esphome_hcpbridge.Hcp2.Runs.{Step, run}

pub length-write_bcast :
    (c : Hcp2Codec) (i val : ℕ) → length (write_bcast c i val).reg_bcast ≡ length c.reg_bcast
length-write_bcast c i val = rw (registers-write_bcast c i val) (length-set c.reg_bcast i val)

-- A register below the ones that are written stays.
registers-write_bcasts_below :
    (left i j : ℕ) (wdata : List ℕ) (c : Hcp2Codec)
    → j < i
    → get_or (write_bcasts left i wdata c).reg_bcast j 0 ≡ get_or c.reg_bcast j 0
unfolding write_bcasts
registers-write_bcasts_below zero i j wdata c below = refl
registers-write_bcasts_below (suc left) i j wdata c below =
    let val = rd16 wdata (2 * i) in
    registers-write_bcasts_below left (i + 1) j wdata (write_bcast c i val) (omega (arith, below))
    ∙ rw (registers-write_bcast c i val)
        (get_or-set_ne c.reg_bcast i j val 0 (λ e. omega (arith, e, below)))

-- The others are the words of the frame.
registers-write_bcasts :
    (left i j : ℕ) (wdata : List ℕ) (c : Hcp2Codec)
    → i + left ≤ length c.reg_bcast
    → i ≤ j
    → j < i + left
    → get_or (write_bcasts left i wdata c).reg_bcast j 0 ≡ rd16 wdata (2 * j)
unfolding write_bcasts
registers-write_bcasts zero i j wdata c within from to = absurd (omega (arith, from, to))
registers-write_bcasts (suc left) i j wdata c within from to =
    let val = rd16 wdata (2 * i) in
    let next = write_bcast c i val in
    elim (Bool-cases (i == j)) [
      | inl equal ↦
          let same = ==→eq i j equal in
          subst
            (λ (k : ℕ).
              get_or (write_bcasts left (i + 1) wdata next).reg_bcast k 0 ≡ rd16 wdata (2 * k))
            same
            (registers-write_bcasts_below left (i + 1) i wdata next (omega arith)
              ∙ rw (registers-write_bcast c i val)
                  (get_or-set_self c.reg_bcast i val 0 (omega (arith, within))))
      | inr other ↦
          registers-write_bcasts left (i + 1) j wdata next
            (ground (arith, within, length-write_bcast c i val)) (ground (arith, other, from))
            (omega (arith, to))
    ]

get_or-drop : (n k : ℕ) (bytes : List ℕ) → get_or (drop n bytes) k 0 ≡ get_or bytes (n + k) 0
get_or-drop zero k bytes = let at : k ≡ 0 + k = omega arith in ap (λ (i : ℕ). get_or bytes i 0) at
get_or-drop (suc n) k [] = refl
get_or-drop (suc n) k (b ∷ bytes) =
    let at : suc (n + k) ≡ suc n + k = omega arith in
    get_or-drop n k bytes ∙ ap (λ (i : ℕ). get_or (b ∷ bytes) i 0) at

pub rd16-drop : (n k : ℕ) (bytes : List ℕ) → rd16 (drop n bytes) k ≡ rd16 bytes (n + k)
rd16-drop n k bytes = ground (arith, get_or-drop n k bytes, get_or-drop n (k + 1) bytes)

-- A broadcast that is accepted, of at least seven registers.
pub record IsBroadcast (raw : List ℕ) : Type 0 where
  pub bytes : AllBytes raw
  pub whole : (hcp2_validate raw == 0) ≡ false
  pub writes : get_or raw 1 0 ≡ 0x10
  pub here : rd16 raw 2 ≡ reg_bcast_base
  pub fits : broadcast_fits (hcp2_validate raw) (rd16 raw 4) (get_or raw 6 0) ≡ true
  pub enough : 7 ≤ rd16 raw 4

-- What the state shows, against the bytes of a broadcast.
pub record IsShown (raw : List ℕ) (s : HoermannState) : Type 0 where
  pub target : s.target_position ≡ get_or raw 9 0
  pub position : s.current_position ≡ get_or raw 10 0
  pub door :
      ((get_or raw 11 0 == 0) ≡ true)
      ⊎ ((decode_state (rd16 raw 11) ≡ none) ⊎ (decode_state (rd16 raw 11) ≡ some s.door))
  pub fault : s.actuator_error ≡ not (get_or raw 19 0 / 16 % 4 == 0)
  pub lamp : s.lamp ≡ (get_or raw 20 0 == 0x14 || get_or raw 20 0 == 0x10)

-- The codec after a broadcast that is accepted.
abbrev pub hooked : Hcp2Codec → ℕ → List ℕ → Hcp2Codec
hooked c now raw = on_request_hook (notice_frame c now) now 0x10 (rd16 raw 4) 0 0

pub on_frame-IsBroadcast :
    (c : Hcp2Codec) (now : ℕ) (raw : List ℕ)
    → IsBroadcast raw
    → (on_frame c now raw).0
      ≡ check_goto_target (write_bcasts (rd16 raw 4) 0 (drop 7 raw) (hooked c now raw)) now
unfolding on_frame on_valid_frame on_broadcast
on_frame-IsBroadcast c now raw b =
    let to_one : (get_or raw 0 0 == 0x00 && get_or raw 1 0 == 0x17) ≡ false =
      ground (arith, b.writes) in
    let reads : (get_or raw 1 0 == 0x17) ≡ false = ground (arith, b.writes) in
    let long : ltb (hcp2_validate raw) 7 ≡ false = ground (arith, b.fits) in
    let ours : not (rd16 raw 2 == reg_bcast_base) ≡ false = ground (arith, b.here) in
    let known : (get_or raw 1 0 == 0x10) ≡ true = ground (arith, b.writes) in
    rw (b.whole, to_one, reads, known, long, ours, b.fits) refl

pub board-hooked : (c : Hcp2Codec) (now : ℕ) (raw : List ℕ) → board (hooked c now raw) ≡ board c
board-hooked c now raw =
    board-on_request_hook (notice_frame c now) now 0x10 (rd16 raw 4) 0 0 ∙ board-notice_frame c now

pub room-hooked :
    (c : Hcp2Codec) (now : ℕ) (raw : List ℕ)
    → IsMirror (board c)
    → IsBroadcast raw
    → 0 + rd16 raw 4 ≤ length (hooked c now raw).reg_bcast
room-hooked c now raw m b =
    let size : length (hooked c now raw).reg_bcast ≡ 9 =
      ap (λ (x : Board). length x.registers) (board-hooked c now raw) ∙ m.size in
    ground (arith, size, b.fits)

-- The word of a register in a broadcast.
registers-on_frame :
    (c : Hcp2Codec) (now : ℕ) (raw : List ℕ) (j : ℕ)
    → IsMirror (board c)
    → IsBroadcast raw
    → j < 7
    → get_or (on_frame c now raw).0.reg_bcast j 0 ≡ rd16 raw (7 + 2 * j)
registers-on_frame c now raw j m b within =
    let wdata = drop 7 raw in
    let cnt = rd16 raw 4 in
    let start = hooked c now raw in
    rw (on_frame-IsBroadcast c now raw b) (
      ap (λ (x : Board). get_or x.registers j 0)
        (board-check_goto_target (write_bcasts cnt 0 wdata start) now)
      ∙ registers-write_bcasts cnt 0 j wdata start (room-hooked c now raw m b) (omega arith)
          (omega (arith, within, b.enough))
      ∙ rd16-drop 7 (2 * j) raw)

-- The two bytes of a word.
pub hi_byte-rd16 : (raw : List ℕ) (i : ℕ) → AllBytes raw → hi_byte (rd16 raw i) ≡ get_or raw i 0
hi_byte-rd16 raw i bytes = omega (arith, get_or-IsByte raw (i + 1) bytes)

pub lo_byte-rd16 :
    (raw : List ℕ) (i : ℕ) → AllBytes raw → lo_byte (rd16 raw i) ≡ get_or raw (i + 1) 0
lo_byte-rd16 raw i bytes = omega (arith, get_or-IsByte raw (i + 1) bytes)

fault-rd16 :
    (raw : List ℕ) (i : ℕ) → AllBytes raw → rd16 raw i / 2 ^ 12 % 4 ≡ get_or raw i 0 / 16 % 4
fault-rd16 raw i bytes = omega (arith, get_or-IsByte raw (i + 1) bytes)

pub on_frame-IsShown_after :
    (c : Hcp2Codec) (now : ℕ) (raw : List ℕ)
    → IsMirror (board c)
    → IsBroadcast raw
    → IsShown raw (on_frame c now raw).0.state
on_frame-IsShown_after c now raw m b =
    let after = on_frame-IsMirror c now raw m in
    let places = registers-on_frame c now raw 1 m b (omega arith) in
    let word = registers-on_frame c now raw 2 m b (omega arith) in
    let lights = registers-on_frame c now raw 6 m b (omega arith) in
    record {
      target = after.target ∙ ap (λ (w : ℕ). hi_byte w) places ∙ hi_byte-rd16 raw 9 b.bytes;
      position = after.position ∙ ap (λ (w : ℕ). lo_byte w) places ∙ lo_byte-rd16 raw 9 b.bytes;
      door = elim (Bool-cases (get_or raw 11 0 == 0)) [
        | inl low ↦ inl low
        | inr above ↦ inr (elim (Option-cases (decode_state (rd16 raw 11))) [
          | inl unknown ↦ inl unknown
          | inr (d, known) ↦
              let is_door =
                after.door d (ground (arith, above, word, hi_byte-rd16 raw 11 b.bytes))
                  (ap decode_state word ∙ known) in
              inr (known ∙ ap (λ (x : DoorState). some x) (sym is_door))
        ])
      ];
      fault = after.fault ∙ rw (lights, fault-rd16 raw 19 b.bytes) refl;
      lamp = after.lamp ∙ rw (lights, lo_byte-rd16 raw 19 b.bytes) refl;
    }

-- From the constructor on, after any history of frames, presses and other calls: a broadcast that
-- is accepted, of at least seven registers, leaves the position, the target, the lamp and the
-- fault as its bytes say; and the door as its state word says, unless the high byte of the word
-- is zero or no state has that code.
pub on_frame-IsShown :
    (steps : List Step) (now : ℕ) (raw : List ℕ)
    → IsBroadcast raw
    → IsShown raw (on_frame (run initial_codec steps).after now raw).0.state
on_frame-IsShown steps now raw b =
    on_frame-IsShown_after (run initial_codec steps).after now raw
      (run-IsMirror initial_codec steps start-IsMirror) b

-- ===== src/Hcp2/Board/Mirror.antt =====
-- What the state shows of the drive is what its last broadcasts said.
use esphome_hcpbridge.Base.{
  ℕ, ◌<◌, ◌≡◌, refl, sym, ap, subst, ◌∙◌, false, not, ◌||◌, ◌==◌, ◌/◌, ◌%◌, ◌^◌, List, arith,
  hi_byte, lo_byte, get_or, set, length, if◌then◌else◌, length-set, get_or-set_self, get_or-set_ne,
  some, Bool-cases, inl, inr, ==→eq,
}
use esphome_hcpbridge.State.{DoorState}
use esphome_hcpbridge.Hcp2.Codec.{Hcp2Codec, initial_codec}
use esphome_hcpbridge.Hcp2.Broadcast.{decode_state, write_bcast}
use esphome_hcpbridge.Hcp2.Board.{Board, board}
use esphome_hcpbridge.Hcp2.Board.Hooks.{
  registers-write_bcast, positions-write_bcast, lamps-write_bcast, door-write_bcast_other,
  door-write_bcast,
}

-- The words that stand in the registers, and what is shown of them. A state word whose high byte is
-- zero is left out.
pub record IsMirror (b : Board) : Type 0 where
  pub size : length b.registers ≡ 9
  pub position : b.shown.position ≡ lo_byte (get_or b.registers 1 0)
  pub target : b.shown.target ≡ hi_byte (get_or b.registers 1 0)
  pub lamp :
      b.shown.lamp
      ≡ (lo_byte (get_or b.registers 6 0) == 0x14 || lo_byte (get_or b.registers 6 0) == 0x10)
  pub fault : b.shown.fault ≡ not (get_or b.registers 6 0 / 2 ^ 12 % 4 == 0)
  pub door :
      (d : DoorState)
      → (hi_byte (get_or b.registers 2 0) == 0) ≡ false
      → decode_state (get_or b.registers 2 0) ≡ some d
      → b.shown.door ≡ d

-- A word whose high byte is not zero is read off its high byte.
decode_state-hi :
    (a b : ℕ) → hi_byte a ≡ hi_byte b → (hi_byte a == 0) ≡ false → decode_state a ≡ decode_state b
unfolding decode_state
decode_state-hi a b equal above = ground (arith, equal, above)

pub get_or-set_any :
    (regs : List ℕ) (i j val : ℕ)
    → i < length regs
    → get_or (set regs i val) j 0 ≡ (if i == j then val else get_or regs j 0)
get_or-set_any regs i j val within = elim (Bool-cases (i == j)) [
  | inl equal ↦ rw (equal, sym (==→eq i j equal)) (get_or-set_self regs i val 0 within)
  | inr other ↦ rw other (get_or-set_ne regs i j val 0 (λ e. ground (arith, e)))
]

-- The door after a state word.
door-write_bcast_word :
    (c : Hcp2Codec) (val : ℕ) (d : DoorState)
    → IsMirror (board c)
    → (hi_byte val == 0) ≡ false
    → decode_state val ≡ some d
    → (write_bcast c 2 val).state.door ≡ d
door-write_bcast_word c val d m above known =
    let old = get_or c.reg_bcast 2 0 in
    elim (Bool-cases (hi_byte old == hi_byte val)) [
      | inl equal ↦
          let eq = ==→eq (hi_byte old) (hi_byte val) equal in
          let old_above = subst (λ (h : ℕ). (h == 0) ≡ false) (sym eq) above in
          (door-write_bcast c val).0 equal
          ∙ m.door d old_above (decode_state-hi old val eq old_above ∙ known)
      | inr new ↦ (door-write_bcast c val).1 new d known
    ]

door-write_bcast_any :
    (c : Hcp2Codec) (i val : ℕ) (d : DoorState)
    → i < 9
    → IsMirror (board c)
    → (hi_byte (get_or (set c.reg_bcast i val) 2 0) == 0) ≡ false
    → decode_state (get_or (set c.reg_bcast i val) 2 0) ≡ some d
    → (write_bcast c i val).state.door ≡ d
door-write_bcast_any c i val d within m above known =
    let word = get_or-set_any c.reg_bcast i 2 val (ground (arith, m.size)) in
    elim (Bool-cases (i == 2)) [
      | inl equal ↦
          let at = ==→eq i 2 equal in
          let is_val : get_or (set c.reg_bcast i val) 2 0 ≡ val = rw (word, equal) refl in
          subst (λ (j : ℕ). (write_bcast c j val).state.door ≡ d) (sym at)
            (door-write_bcast_word c val d m
              (subst (λ (w : ℕ). (hi_byte w == 0) ≡ false) is_val above)
              (ap decode_state (sym is_val) ∙ known))
      | inr other ↦
          let is_old : get_or (set c.reg_bcast i val) 2 0 ≡ get_or c.reg_bcast 2 0 =
            rw (word, other) refl in
          door-write_bcast_other c i val (λ e. ground (arith, e))
          ∙ m.door d (subst (λ (w : ℕ). (hi_byte w == 0) ≡ false) is_old above)
              (ap decode_state (sym is_old) ∙ known)
    ]

-- A register that is written keeps what is shown true.
pub write_bcast-IsMirror :
    (c : Hcp2Codec) (i val : ℕ)
    → i < 9
    → IsMirror (board c)
    → IsMirror (board (write_bcast c i val))
write_bcast-IsMirror c i val within m =
    let regs = registers-write_bcast c i val in
    let places = positions-write_bcast c i val in
    let lights = lamps-write_bcast c i val in
    let in_range : i < length c.reg_bcast = ground (arith, m.size) in
    let places_word = get_or-set_any c.reg_bcast i 1 val in_range in
    let lights_word = get_or-set_any c.reg_bcast i 6 val in_range in
    rw regs (record {
      size = length-set c.reg_bcast i val ∙ m.size;
      position = ground (arith, places.0, m.position, places_word);
      target = ground (arith, places.1, m.target, places_word);
      lamp = ground (arith, lights.0, m.lamp, lights_word);
      fault = ground (arith, lights.1, m.fault, lights_word);
      door = λ d above known. door-write_bcast_any c i val d within m above known;
    })

pub start-IsMirror : IsMirror (board initial_codec)
unfolding initial_codec decode_state
start-IsMirror = record {
  size = refl;
  position = ground arith;
  target = ground arith;
  lamp = ground arith;
  fault = ground arith;
  door = λ d above known. ground (arith, above);
}

-- ===== src/Relay/Told.antt =====
-- A broadcast of the drive reaches Home Assistant with the `update` of hcpbridge.cpp that follows.
use esphome_hcpbridge.Base.{
  ℕ, ◌≡◌, refl, sym, ap, subst, ◌∙◌, arith, Bool-cases, true, false, Option, some, none, inl, inr,
  lo_byte, get_or, List,
}
use esphome_hcpbridge.State.{clear_changed}
use esphome_hcpbridge.Hcp2.Codec.{Hcp2Codec}
use esphome_hcpbridge.Hcp2.Commands.{check_bus_silence}
use mathlib.Core.Option.{some-injective}
use esphome_hcpbridge.Ring.{HcpEventRing}
use esphome_hcpbridge.Hcp2.Board.{Board, board-publish_identity}
use esphome_hcpbridge.HcpBus.{hcp2_bus}
use esphome_hcpbridge.Component.{LogLine, Updated, update, look_after, drain_events}
use esphome_hcpbridge.Component.Update.{is_silent, publish_identity-changed, update-IsUpdated}
use esphome_hcpbridge.Ring.Holds.{Holds}
use esphome_hcpbridge.Events.{HcpEventEntry}
use esphome_hcpbridge.Hcp2.Runs
use esphome_hcpbridge.Relay.{
  Home, relay, serves, updates, Reach, then_step, told_position, IsRelayed,
}
use esphome_hcpbridge.Relay.Kept.{Reach-IsSound, Reach-IsRelayed}
use esphome_hcpbridge.Hcp2.Frame.{on_frame}
use esphome_hcpbridge.Hcp2.Board.Histories.{on_frame-IsMirror}
use esphome_hcpbridge.Hcp2.Board.Words.{IsBroadcast, on_frame-IsShown_after}
use esphome_hcpbridge.Hcp2.Board.Boot.{valid-on_frame}

-- On a bus that is not silent, an update leaves the state valid, and the registers as they were.
record IsCalm (c : Hcp2Codec) (u : Updated Hcp2Codec) : Type 0 where
  valid : u.bus.state.valid ≡ true
  told : u.bus.state.changed ≡ false
  registers : u.bus.reg_bcast ≡ c.reg_bcast

look_after-IsCalm :
    (c : Hcp2Codec) (now : ℕ) (lines : List LogLine)
    → c.state.valid ≡ true
    → is_silent c now ≡ false
    → IsCalm c (look_after hcp2_bus c now lines)
unfolding look_after clear_changed check_bus_silence
look_after-IsCalm c now lines valid heard_of =
    let published = publish_identity-changed c in
    let registers = ap (λ (x : Board). x.registers) (board-publish_identity c) in
    record {
      valid = ground (arith, published.0, published.1);
      told = ground arith;
      registers = ground (arith, registers);
    }

drained-IsCalm :
    (c : Hcp2Codec) (now : ℕ) (u : Updated Hcp2Codec) (o : Option (List LogLine × HcpEventRing))
    → c.state.valid ≡ true
    → is_silent c now ≡ false
    → (elim o [
      | none ↦ none
      | some drained ↦ some (look_after hcp2_bus (record c { events = drained.1 }) now drained.0)
    ])
      ≡ some u
    → IsCalm c u
drained-IsCalm c now u none valid heard_of returns = absurd (ground (arith, returns))
drained-IsCalm c now u (some drained) valid heard_of returns =
    let calm = look_after-IsCalm (record c { events = drained.1 }) now drained.0 valid heard_of in
    subst (λ (v : Updated Hcp2Codec). IsCalm c v) (some-injective _ _ returns)
      (record { valid = calm.valid; told = calm.told; registers = calm.registers })

update-IsCalm :
    (c : Hcp2Codec) (now : ℕ) (u : Updated Hcp2Codec)
    → c.state.valid ≡ true
    → is_silent c now ≡ false
    → update hcp2_bus c now ≡ some u
    → IsCalm c u
unfolding update
update-IsCalm c now u valid heard_of returns =
    drained-IsCalm c now u (drain_events c.events) valid heard_of returns

-- What Home Assistant knows of a codec that has nothing more to tell.
knows_position :
    {h : Home}
    → IsRelayed h
    → h.codec.state.changed ≡ false
    → h.codec.state.valid ≡ true
    → told_position h.known ≡ some (lo_byte (get_or h.codec.reg_bcast 1 0))
knows_position relayed same valid =
    let shows = relayed.current same valid in
    relayed.knows shows.0 ∙ ap (λ (p : ℕ). some p) (shows.1 ∙ relayed.mirror.position)

codec-relay : (h : Home) (u : Updated Hcp2Codec) → (relay h u).codec ≡ u.bus
unfolding relay
codec-relay h u = elim (Bool-cases u.called) [
  | inl called ↦ rw called refl
  | inr quiet ↦ rw quiet refl
]

pub update-tells :
    {h : Home} (now base : ℕ) (q : List HcpEventEntry)
    → Reach h
    → Holds h.codec.events base q
    → h.codec.state.valid ≡ true
    → is_silent h.codec now ≡ false
    → (u : Updated Hcp2Codec) × (update hcp2_bus h.codec now ≡ some u)
      × (told_position (relay h u).known ≡ some (lo_byte (get_or h.codec.reg_bcast 1 0)))
update-tells {h = h} now base q reached ring valid heard_of =
    let done = update-IsUpdated h.codec now base q ring in
    let u : Updated Hcp2Codec = done.after in
    let calm = update-IsCalm h.codec now u valid heard_of done.returns in
    let known =
      knows_position (Reach-IsRelayed (then_step reached (updates h now u done.returns)))
        (rw (codec-relay h u) calm.told) (rw (codec-relay h u) calm.valid) in
    (
      u,
      done.returns,
      known
          ∙ rw (codec-relay h u)
              (ap (λ (regs : List ℕ). some (lo_byte (get_or regs 1 0))) calm.registers),
    )

-- From the constructor of the codec and a cover that has published nothing, after any history of
-- calls of the codec and of updates: if a broadcast of at least seven registers is accepted, and
-- the bus is not silent at the update that follows, then that update returns, and afterwards the
-- position that Home Assistant was last told by the cover is the low byte of the broadcast's
-- second register.
pub broadcast-tells :
    {h : Home} (at now : ℕ) (raw : List ℕ)
    → Reach h
    → IsBroadcast raw
    → is_silent (on_frame h.codec at raw).0 now ≡ false
    → let c = (on_frame h.codec at raw).0 in
      (u : Updated Hcp2Codec) × (update hcp2_bus c now ≡ some u)
      × (told_position (relay (record h { codec = c }) u).known ≡ some (get_or raw 10 0))
unfolding Runs.step
broadcast-tells {h = h} at now raw reached b heard_of =
    let mirror = (Reach-IsRelayed reached).mirror in
    let served = then_step reached (serves h (Runs.frame at raw)) in
    let (base, q, ring) = Reach-IsSound served in
    let told = update-tells now base q served ring (valid-on_frame h.codec at raw b) heard_of in
    (
      told.0,
      told.1,
      told.2
          ∙ ap (λ (p : ℕ). some p)
              (sym (on_frame-IsMirror h.codec at raw mirror).position
                ∙ (on_frame-IsShown_after h.codec at raw mirror b).position),
    )

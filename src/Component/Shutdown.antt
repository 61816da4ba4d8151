-- ===== src/Component/Shutdown.antt =====
-- A shutdown ends on either bus.
use esphome_hcpbridge.Base.{ℕ, ◌≡◌, refl, arith, false, suc, Option, some, List, inl, inr}
use esphome_hcpbridge.BusTask.{SettleClock}
use esphome_hcpbridge.BusTask.Settle.{Ticks, settle_until_quiet-Settles}
use esphome_hcpbridge.Hcp2Transport.{PauseWorld, Arrival, serve_frames}
use esphome_hcpbridge.Hcp2Transport.Pause.{announce_pause-IsOver}
use esphome_hcpbridge.Component.{
  Engine, hcp1_engine, hcp2_engine, pause_ack_wait_ms, announce_pause, quiesce, on_shutdown,
}

pub record Returns {ℓ} {A : Type ℓ} (r : Option A) : Type ℓ where
  pub out : A
  pub returns : r ≡ some out

quiesce-Returns :
    (clock : SettleClock) (settled : ℕ → ℕ) (settling : List Arrival) (e : Engine)
    → Ticks 5 clock.started clock.test settled
    → Returns (quiesce clock settling e)
unfolding quiesce
quiesce-Returns clock settled settling (hcp1_engine t) k = record {
  out = hcp1_engine t;
  returns = rw ((settle_until_quiet-Settles clock settled k).returns, quiesce) refl;
}
quiesce-Returns clock settled settling (hcp2_engine t) k = record {
  out = hcp2_engine (record t { codec = serve_frames settling t.codec });
  returns = rw ((settle_until_quiet-Settles clock settled k).returns, quiesce) refl;
}

announce_pause-Returns :
    (w : PauseWorld) (waited settled : ℕ → ℕ) (e : Engine)
    → Ticks 10 w.started w.test waited
    → Ticks 5 w.settle.started w.settle.test settled
    → Returns (announce_pause (suc pause_ack_wait_ms) w e)
unfolding announce_pause
announce_pause-Returns w waited settled (hcp1_engine t) k l = record { out = _; returns = refl }
announce_pause-Returns w waited settled (hcp2_engine t) k l =
    elim (announce_pause-IsOver w waited settled pause_ack_wait_ms pause_ack_wait_ms t.codec k l
      (omega arith) (omega arith)) [
        | inl nobody ↦ record {
          out = (hcp2_engine t, false);
          returns = rw (nobody, announce_pause) refl;
        }
        | inr over ↦ record {
          out = (hcp2_engine (record t { codec = over.out.0 }), over.out.1);
          returns = rw (over.returns, announce_pause) refl;
        }
      ]

-- On clocks whose rounds take at least as long as their delays and less than 2 ^ 31 milliseconds, a
-- shutdown returns.
pub on_shutdown-Returns :
    (w : PauseWorld) (waited settled quiet : ℕ → ℕ) (clock : SettleClock) (settling : List Arrival)
    (e : Engine)
    → Ticks 10 w.started w.test waited
    → Ticks 5 w.settle.started w.settle.test settled
    → Ticks 5 clock.started clock.test quiet
    → Returns (on_shutdown (suc pause_ack_wait_ms) w clock settling e)
unfolding on_shutdown
on_shutdown-Returns w waited settled quiet clock settling e k l m =
    let announced = announce_pause-Returns w waited settled e k l in
    let gone = quiesce-Returns clock quiet settling announced.out.0 m in
    record { out = gone.out; returns = rw (announced.returns, on_shutdown, gone.returns) refl }

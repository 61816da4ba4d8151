-- ===== src/Hcp2Transport/Tests.antt =====
-- Each theorem about the newer transport at concrete frames and clocks.
use esphome_hcpbridge.Base.{
  ℕ, ◌+◌, ◌*◌, ◌≡◌, ◌⊎◌, refl, arith, true, false, some, List, [], ◌∷◌, take, u32, length-take,
}
use esphome_hcpbridge.Hcp2.Codec.{initial_codec}
use esphome_hcpbridge.Uart.{Wire, uart_data}
use esphome_hcpbridge.ModbusRtu.{initial_server}
use esphome_hcpbridge.Hcp2Transport.{Hcp2Transport, serve_once, PauseWorld, announce_pause}
use esphome_hcpbridge.Hcp2Transport.Answers.{Served, serve_once-Served}
use esphome_hcpbridge.Hcp2Transport.Pause.{IsOver, announce_pause-IsOver}

-- A status poll, whole in the driver's buffer.
abbrev status_poll : List ℕ
status_poll =
    0x02 ∷ 0x17 ∷ 0x9c ∷ 0xb9 ∷ 0 ∷ 8 ∷ 0x9c ∷ 0x41 ∷ 0 ∷ 2 ∷ 4 ∷ 0x10 ∷ 0x03 ∷ 0 ∷ 0 ∷ 0xe2 ∷ 0xe4
    ∷ []

abbrev poll_wire : Wire
poll_wire = record {
  event = some (record { type = uart_data; size = 17 });
  read = λ i n. take n status_poll;
}

abbrev begun : Hcp2Transport
begun = record {
  codec = initial_codec;
  mb = record initial_server { queue = true };
  handler = true;
}

serve_once-Served_example : Served begun 1000 (serve_once 1000 begun poll_wire)
serve_once-Served_example =
    serve_once-Served begun 1000 poll_wire refl refl
      (λ i n. omega (arith, length-take n status_poll))

-- Nothing arrives while a heard codec waits for two seconds.
abbrev deaf : PauseWorld
deaf = record {
  now = 1000;
  started = 1000;
  test = λ i. u32 (1000 + 10 * i);
  arrivals = λ i. [];
  settle = record {
    started = 3000;
    test = λ i. u32 (3000 + 5 * i);
    last = λ i. 990;
    look = λ i. u32 (3000 + 5 * i);
  };
  settling = [];
}

announce_pause-IsOver_example :
    (announce_pause 201 deaf 2000 (record initial_codec { last_frame_on = 990 })
      ≡ some (record initial_codec { last_frame_on = 990 }, false))
    ⊎ IsOver (announce_pause 201 deaf 2000 (record initial_codec { last_frame_on = 990 }))
announce_pause-IsOver_example =
    announce_pause-IsOver deaf (λ i. 10 * i) (λ i. 5 * i) 200 2000
      (record initial_codec { last_frame_on = 990 })
      (record {
        first = omega arith;
        begun = omega arith;
        reads = λ i. refl;
        waits = λ i. omega arith;
        over = λ i. omega arith;
      })
      (record {
        first = omega arith;
        begun = omega arith;
        reads = λ i. refl;
        waits = λ i. omega arith;
        over = λ i. omega arith;
      })
      (omega arith) (omega arith)

-- ===== src/ModbusRtu/Idle.antt =====
-- The silence that ends a frame.
use esphome_hcpbridge.Base.{ℕ, ◌+◌, ◌-◌, ◌*◌, ◌/◌, ◌≤◌, ◌<◌, ◌≡◌, ◌⊎◌, arith}
use native.Mathlib.Nat.{lt-div-mul-add, mul-le-mul_right}
use esphome_hcpbridge.ModbusRtu.{rx_idle_symbols}

-- A quotient rounded up covers its dividend.
le-ceil : (a d : ℕ) → 0 < d → a ≤ (a + d - 1) / d * d
le-ceil a d h = omega (arith, lt-div-mul-add {a = a + d - 1} h)

-- At any baud rate, the silence that ends a frame is between 4 and 92 symbols, and it is 92
-- symbols or lasts at least the 1750 microseconds of the standard, counted in whole microseconds
-- a symbol.
pub rx_idle_symbols_lem :
    (baud : ℕ)
    → let n = rx_idle_symbols baud in
      (4 ≤ n) × (n ≤ 92) × ((n ≡ 92) ⊎ (1750 ≤ n * (11 * 1000000 / baud)))
unfolding rx_idle_symbols
rx_idle_symbols_lem baud =
    let symbol_us = 11 * 1000000 / baud in
    let symbols = (1750 + symbol_us - 1) / symbol_us in
    ground (arith, le-ceil 1750 symbol_us, mul-le-mul_right {m = symbols} {n = 4} symbol_us)

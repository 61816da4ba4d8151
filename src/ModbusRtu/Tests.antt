-- ===== src/ModbusRtu/Tests.antt =====
-- The silence that ends a frame, at the drive's baud rate.
use esphome_hcpbridge.Base.{◌*◌, ◌/◌, ◌≤◌, ◌≡◌, ◌⊎◌}
use esphome_hcpbridge.ModbusRtu.{rx_idle_symbols}
use esphome_hcpbridge.ModbusRtu.Idle.{rx_idle_symbols_lem}

rx_idle_symbols_lem_example :
    (4 ≤ rx_idle_symbols 57600)
    × (rx_idle_symbols 57600 ≤ 92)
    × ((rx_idle_symbols 57600 ≡ 92) ⊎ (1750 ≤ rx_idle_symbols 57600 * (11 * 1000000 / 57600)))
rx_idle_symbols_lem_example = rx_idle_symbols_lem 57600

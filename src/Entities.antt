-- ===== src/Entities.antt =====
-- components/hcpbridge/: what Home Assistant sees of a door, one module for each kind of entity.
-- The base classes are ESPHome's: of these the models keep the members that the code reads or
-- writes, and return as a list what was handed to `publish_state`.
mod Tests
pub mod Cover
pub mod Light
pub mod Switch
pub mod Sensors

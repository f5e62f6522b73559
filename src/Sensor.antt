-- ===== src/Sensor.antt =====
-- The nodes under sensor/ that read the boat's sensors.
pub mod Sbus

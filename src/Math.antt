-- ===== src/Math.antt =====
-- The geometry under math/.
pub mod Polygon

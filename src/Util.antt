-- ===== src/Util.antt =====
-- The parts under util/ that the other nodes are built on.
pub mod Clock
pub mod Log
pub mod Replay

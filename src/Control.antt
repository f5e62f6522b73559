-- ===== src/Control.antt =====
-- The nodes under control/ that steer the boat.
pub mod Util
pub mod LineTacker
pub mod Scamp
pub mod Simple
pub mod Ballast
pub mod Waypoint
pub mod LinePlan
pub mod Planner
pub mod Adaptive

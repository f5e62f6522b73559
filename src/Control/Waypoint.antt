-- ===== src/Control/Waypoint.antt =====
-- `WaypointManager` of control/waypoint_manager.h and control/waypoint_manager.cc: the state, the
-- handlers and `Iterate`, each as one step that returns the new state and the messages sent, in
-- order.
pub mod Handlers
pub mod Challenges
pub mod Run
pub mod Trace
pub mod Keeping
pub mod Searching
pub mod Avoiding
pub mod Remote
mod Tests
use boat.Prelude.{
  ℕ, zero, suc, ◌+◌, ◌*◌, ◌-◌, Bool, true, false, not, ◌&&◌, ◌||◌, Option, none, some, List, [],
  ◌∷◌, ◌++◌, leb, ltb, ◌==◌, if◌then◌else◌, length, get_or,
}
use boat.Prelude.Int.{ℤ, pos, negsuc, ltb_ℤ, leb_ℤ}
use boat.Prelude.Floats.{Floats}
use boat.Control.Util.{norm_angle}

pub data StationState : Type 0 where
  goto_start wait back forth leave : StationState

pub data VisionState : Type 0 where
  follow_waypoints follow_vision : VisionState

pub data ObstacleState : Type 0 where
  waypoint avoid : ObstacleState

pub data ChallengeType : Type 0 where
  station_keep to_waypoint vision obstacle : ChallengeType

pub data Mode : Type 0 where
  manual_rc auto manual_wifi disable filtered_rc : Mode

pub data Tacker : Type 0 where
  no_tacker line reward disabled line_plan : Tacker

pub data Search : Type 0 where
  no_target going_to_buoy at_buoy : Search

-- `msg::ControlMode`, less the two fields that this node never sets.
pub record ControlMode : Type 0 where
  pub winch_mode : Option Mode
  pub tacker : Option Tacker
  pub rudder_mode : Option Mode

abbrev pub cleared : ControlMode
cleared = record { winch_mode = none; tacker = none; rudder_mode = none }

-- The confidences at which something is seen, has been reached, and is in the way.
abbrev pub confidence_threshold : ℤ
confidence_threshold = pos 250

abbrev pub found_threshold : ℤ
found_threshold = pos 700

abbrev pub obstacle_threshold : ℤ
obstacle_threshold = pos 200

-- `++` on an `int`, which goes round to the least number.
pub next_int : ℤ → ℤ
next_int (pos n) = if n == 2147483647 then negsuc 2147483647 else pos (n + 1)
next_int (negsuc zero) = pos 0
next_int (negsuc (suc n)) = negsuc n

-- A `time_point` is a number of nanoseconds.
abbrev pub seconds : ℕ → ℕ
seconds n = n * 1000000000

module _ (fl : Floats) where
  open fl use {F, add, sub, mul, div, neg, lt, narrow, trunc, of_int, literal, pi, atan2}

  pub record HeadingCmd : Type 0 where
    pub heading : Option F
    pub extra_sail : Option F

  abbrev pub cleared_heading : HeadingCmd
  cleared_heading = record { heading = none; extra_sail = none }

  pub data Output : Type 0 where
    control_mode : ControlMode → Output
    heading_cmd : HeadingCmd → Output
    search_state : Option Search → Output

  pub record Manager : Type 0 where
    pub tacker_done : Bool
    pub last_waypoint : ℤ
    pub last_sbus_manual : Bool
    pub near_waypoint : Bool
    pub upwind_dir : F
    pub vision_confidence : ℤ
    pub obs_cnt : ℤ
    pub vision_abs_heading : F
    pub boat_yaw : F
    pub initial_avoid_diff_heading : F
    pub station_keep_state : StationState
    pub vision_state : VisionState
    pub obstacle_state : ObstacleState
    pub station_keep_end : ℕ
    pub mode : ChallengeType
    pub control_mode_msg : ControlMode
    pub search_state_msg : Option Search
    pub heading_cmd_msg : HeadingCmd

  abbrev pub Step : Type 0
  Step = Manager × List Output

  -- The constructor, at the given time, with what it sends.
  pub start : ℕ → Step
  start now = (
    record {
      tacker_done = false;
      last_waypoint = pos 0;
      last_sbus_manual = false;
      near_waypoint = false;
      upwind_dir = of_int (pos 0);
      vision_confidence = pos 0;
      obs_cnt = pos 0;
      vision_abs_heading = of_int (pos 0);
      boat_yaw = of_int (pos 0);
      initial_avoid_diff_heading = of_int (pos 0);
      station_keep_state = goto_start;
      vision_state = follow_waypoints;
      obstacle_state = waypoint;
      station_keep_end = now;
      mode = to_waypoint;
      control_mode_msg = cleared;
      search_state_msg = some no_target;
      heading_cmd_msg = cleared_heading;
    },
    search_state (some no_target) ∷ [],
  )

  -- Setting fields of a message and sending it.
  abbrev pub send_control : ControlMode → Manager → Step
  send_control msg s = (record s { control_mode_msg = msg }, control_mode msg ∷ [])

  abbrev pub send_tacker : Tacker → Manager → Step
  send_tacker t s = send_control (record s.control_mode_msg { tacker = some t }) s

  abbrev pub send_tacker_alone : Tacker → Manager → Step
  send_tacker_alone t s = send_control (record cleared { tacker = some t }) s

  abbrev pub send_heading : HeadingCmd → Manager → Step
  send_heading msg s = (record s { heading_cmd_msg = msg }, heading_cmd msg ∷ [])

  abbrev pub and_then : Step → (Manager → Step) → Step
  and_then (s, out) f = let (s', out') = f s in (s', out ++ out')

  abbrev pub clear_heading : Manager → Step
  clear_heading s = (record s { heading_cmd_msg = cleared_heading }, [])

  abbrev pub send_search : Manager → Step
  send_search s = (s, search_state s.search_state_msg ∷ [])

-- ===== src/Control/Planner/Handlers.antt =====
-- The handlers and the constructor of `LinePlan` (control/line_plan.cc). Each holds the mutex where it
-- changes what another reads, so each is one step.
pub mod Taken
pub mod Safe
pub mod Single
mod Tests
use boat.Prelude.{
  ℕ, ◌-◌, min, Bool, true, false, ◌||◌, List, [], ◌∷◌, ◌++◌, map, Option, none, some, ◌==◌,
  if◌then◌else◌, length, get_elem?, ◌>>=◌,
}
use boat.Prelude.Int.{pos}
use boat.Math.Polygon.{Plane, validate_points}
use boat.Control.Util.{gps_distance}
use boat.Control.Waypoint.{Tacker, line_plan}
use boat.Control.LinePlan.{Gate, num, equal}
use boat.Control.Planner.{
  Planner, TackerState, lon_lat_to_frame, update_waypoints, update_obstacles, reset_ref,
}
use boat.Control.Planner.Walk.{update_waypoint_inc}
use boat.Control.Planner.Heading.{Sent, iterate}

module _ (pl : Plane) where
  open pl use {floats, Point, point, x, y}
  open floats use {F, lt, atan2}

  -- `msg::WaypointList`, with the defaults for what is missing.
  pub record WaypointList : Type 0 where
    pub points : List Point
    pub restart : Bool
    pub defined_start : Bool
    pub repeat : Bool

  abbrev pub waypoints_lonlat_of : WaypointList → Planner pl → List Point
  waypoints_lonlat_of msg p =
      (if msg.defined_start then [] else p.boat_pos_lonlat ∷ []) ++ msg.points

  -- The state with the new list, before the gates are made.
  abbrev pub listed : WaypointList → Planner pl → Planner pl
  listed msg p =
      let next = if msg.restart || p.next_waypoint == 0 then 1 else p.next_waypoint in
      record p {
        crossed_cnt = pos 0;
        repeat_waypoints = msg.repeat;
        next_waypoint = min next (length msg.points - 1);
        waypoints_lonlat = waypoints_lonlat_of msg p;
      }

  abbrev pub ref_at : List Point → Planner pl → Planner pl
  ref_at [] p = p
  ref_at (pt ∷ pts) p = reset_ref pl pt p

  -- Without a reference point the first waypoint is made it.
  pub with_ref : Planner pl → Planner pl
  with_ref p = if equal pl (x p.lonlat_scale) (num pl 0) then ref_at p.waypoints_lonlat p else p

  pub receive_waypoints : WaypointList → Planner pl → Planner pl
  unfolding with_ref
  receive_waypoints msg p =
      if length msg.points == 0 then p else update_waypoints pl (with_ref (listed msg p))

  -- The obstacles that are kept. With `verbose` one that is not convex ends the program.
  pub valid_obstacles : Bool → List (List Point) → Option (List (List Point))
  valid_obstacles verbose [] = some []
  valid_obstacles verbose (pts ∷ polygons) =
      let rest = valid_obstacles verbose polygons in
      validate_points pl pts >>= λ valid.
      if valid then (rest >>= λ kept. some (pts ∷ kept)) else if verbose then none else rest

  pub receive_obstacles : Bool → List (List Point) → Planner pl → Option (Planner pl)
  unfolding valid_obstacles
  receive_obstacles verbose msg p = do
    kept ← valid_obstacles verbose msg
    some (update_obstacles pl (record p { obstacles_lonlat = kept }))

  -- The new position.
  abbrev pub placed : Point → F → Planner pl → Planner pl
  placed lonlat yaw p = record p {
    prev_boat_pos = p.boat_pos;
    prev_boat_pos_lonlat = p.boat_pos_lonlat;
    boat_pos_lonlat = lonlat;
    boat_pos = lon_lat_to_frame pl p lonlat;
    yaw = yaw;
  }

  -- The state before the waypoint is looked at.
  pub moved_to : Point → F → Planner pl → Planner pl
  moved_to lonlat yaw p =
      let ref = p.lonlat_ref in
      if lt (num pl 100) (gps_distance floats (y lonlat) (x lonlat) (y ref) (x ref))
      then reset_ref pl lonlat (placed lonlat yaw p)
      else placed lonlat yaw p

  pub receive_boat_state : Point → F → Planner pl → Option (Planner pl × List TackerState)
  unfolding moved_to
  receive_boat_state lonlat yaw p = update_waypoint_inc pl (moved_to lonlat yaw p)

  pub data Event : Type 0 where
    waypoints : WaypointList → Event
    planner_obstacles : List (List Point) → Event
    control_mode : Option Tacker → Event
    boat_state : Point → F → Event
    true_wind : F → F → Event
    tick : Event

  pub data Output : Type 0 where
    tacker_state : TackerState → Output
    sent : Sent pl → Output
    initial_waypoints : WaypointList → Output
    initial_obstacles : List (List Point) → Output

  abbrev pub with_tacker : Option Tacker → Planner pl → Planner pl
  with_tacker none p = p
  with_tacker (some t) p = record p { tack_mode = t }

  -- One message, or one round of the loop.
  pub step : Bool → Event → Planner pl → Option (Planner pl × List Output)
  unfolding receive_waypoints receive_obstacles receive_boat_state
  step verbose (waypoints msg) p = some (receive_waypoints msg p, [])
  step verbose (planner_obstacles msg) p = receive_obstacles verbose msg p >>= λ p'. some (p', [])
  step verbose (control_mode t) p = some (with_tacker t p, [])
  step verbose (boat_state lonlat yaw) p =
      receive_boat_state lonlat yaw p >>= λ (p', out). some (p', map tacker_state out)
  step verbose (true_wind wx wy) p = some (record p { wind_dir = atan2 wy wx }, [])
  step verbose tick p = iterate pl p >>= λ (p', out). some (p', map sent out)

  pub run : Bool → List Event → Planner pl → Option (Planner pl × List Output)
  unfolding step
  run verbose [] p = some (p, [])
  run verbose (e ∷ es) p = do
    (p1, out1) ← step verbose e p
    (p2, out2) ← run verbose es p1
    some (p2, out1 ++ out2)

  -- What the constructor finds in the memory that it does not set.
  pub record Memory : Type 0 where
    pub yaw : F
    pub wind_dir : F
    pub boat_pos : Point
    pub boat_pos_lonlat : Point
    pub prev_boat_pos : Point
    pub prev_boat_pos_lonlat : Point

  pub unread : Memory → Planner pl
  unread m = record {
    crossed_cnt = pos 0;
    yaw = m.yaw;
    wind_dir = m.wind_dir;
    boat_pos = m.boat_pos;
    boat_pos_lonlat = m.boat_pos_lonlat;
    prev_boat_pos = m.prev_boat_pos;
    prev_boat_pos_lonlat = m.prev_boat_pos_lonlat;
    lonlat_ref = point (num pl 0) (num pl 0);
    lonlat_scale = point (num pl 0) (num pl 0);
    obstacles_lonlat = [];
    obstacles = [];
    waypoints_lonlat = [];
    pathpoints_msg = [];
    waypoints = [];
    are_gates = [];
    next_waypoint = 0;
    repeat_waypoints = false;
    state_msg = record { done = none; last_waypoint = none; near_waypoint = none };
    tack_mode = line_plan;
  }

  -- The two files, where they can be read; what they hold is sent on.
  pub read_waypoints : Option WaypointList → Planner pl → Planner pl × List Output
  unfolding receive_waypoints
  read_waypoints none p = (p, [])
  read_waypoints (some msg) p = (receive_waypoints msg p, initial_waypoints msg ∷ [])

  pub read_obstacles :
      Bool → Option (List (List Point)) → Planner pl → Option (Planner pl × List Output)
  unfolding receive_obstacles
  read_obstacles verbose none p = some (p, [])
  read_obstacles verbose (some msg) p =
      receive_obstacles verbose msg p >>= λ p'. some (p', initial_obstacles msg ∷ [])

  -- The constructor.
  pub start :
      Bool
      → Memory
      → Option WaypointList
      → Option (List (List Point))
      → Option (Planner pl × List Output)
  unfolding unread read_waypoints read_obstacles
  start verbose m way_list obs_list = do
    let (p1, out1) = read_waypoints way_list (unread m)
    (p2, out2) ← read_obstacles verbose obs_list p1
    some (p2, out1 ++ out2)

-- ===== src/Control/Planner.antt =====
-- The state of `LinePlan` (control/line_plan.h, control/line_plan.cc), the frame in metres about a
-- reference point, and the gates at the waypoints.
pub mod Walk
pub mod Heading
pub mod Handlers
pub mod Gates
pub mod Fenced
use boat.Prelude.{
  ℕ, ◌+◌, Bool, true, false, ◌&&◌, List, [], ◌∷◌, ◌++◌, map, Option, none, some, if◌then◌else◌,
  length, replicate,
}
use boat.Prelude.Int.{ℤ, pos}
use boat.Math.Polygon.{Plane}
use boat.Control.Util.{gps_lat_lon_scale}
use boat.Control.Waypoint.{Tacker}
use boat.Control.LinePlan.{Gate, num}

-- `msg::TackerState`.
pub record TackerState : Type 0 where
  pub done : Option Bool
  pub last_waypoint : Option ℤ
  pub near_waypoint : Option Bool

module _ (pl : Plane) where
  open pl use {floats, Point, point, x, y, plus, minus, times, over, norm}
  open floats use {F, mul, div, neg, lt, literal}

  pub record Planner : Type 0 where
    pub crossed_cnt : ℤ
    pub yaw : F
    pub wind_dir : F
    pub boat_pos : Point
    pub boat_pos_lonlat : Point
    pub prev_boat_pos : Point
    pub prev_boat_pos_lonlat : Point
    pub lonlat_ref : Point
    pub lonlat_scale : Point
    pub obstacles_lonlat : List (List Point)
    pub obstacles : List (List Point)
    pub waypoints_lonlat : List Point
    pub pathpoints_msg : List Point
    pub waypoints : List (Gate pl)
    pub are_gates : List Bool
    pub next_waypoint : ℕ
    pub repeat_waypoints : Bool
    pub state_msg : TackerState
    pub tack_mode : Tacker

  pub lon_lat_to_frame : Planner → Point → Point
  lon_lat_to_frame p lonlat =
      let d = minus lonlat p.lonlat_ref in
      point (mul (x p.lonlat_scale) (x d)) (mul (y p.lonlat_scale) (y d))

  pub frame_to_lon_lat : Planner → Point → Point
  frame_to_lon_lat p frame =
      plus (point (div (x frame) (x p.lonlat_scale)) (div (y frame) (y p.lonlat_scale)))
        p.lonlat_ref

  -- A quarter turn to the left.
  abbrev left : Point → Point
  left v = point (neg (y v)) (x v)

  -- Whether the gate is centred, and its direction, where two of the points are apart.
  pub gate_direction : Point → Point → F → F → Bool × Point
  gate_direction preleg postleg prev2gate next2gate =
      let mindist = literal 1 1000000 in
      let pre = over preleg prev2gate in
      let post = over postleg next2gate in
      let seg = minus pre post in
      let gatenorm = norm seg in
      if lt prev2gate mindist
      then (true, left post)
      else if lt next2gate mindist
      then (true, left pre)
      else if lt gatenorm mindist
      then (true, left pre)
      else (false, over seg gatenorm)

  pub make_gate_from_waypoints : Point → Point → Point → Gate pl
  unfolding gate_direction
  make_gate_from_waypoints gatept prevpt nextpt =
      let preleg = minus gatept prevpt in
      let postleg = minus nextpt gatept in
      let prev2gate = norm preleg in
      let next2gate = norm postleg in
      let mindist = literal 1 1000000 in
      let width = num pl 20 in
      let offset = point (div width (num pl 2)) (num pl 0) in
      let (centered, direction) = gate_direction preleg postleg prev2gate next2gate in
      let gateseg = times width direction in
      let back = over gateseg (num pl 2) in
      if lt prev2gate mindist && lt next2gate mindist
      then (minus gatept offset, plus gatept offset)
      else if centered
      then (minus gatept back, minus (plus gatept gateseg) back)
      else (gatept, plus gatept gateseg)

  -- The gates between the first waypoint and the last, from two points and those that follow.
  pub inner_gates : Point → Point → List Point → List (Gate pl)
  unfolding make_gate_from_waypoints
  inner_gates prevpt curpt [] = []
  inner_gates prevpt curpt (nextpt ∷ pts) =
      make_gate_from_waypoints curpt prevpt nextpt ∷ inner_gates curpt nextpt pts

  abbrev pub last_two : Point → Point → List Point → Point × Point
  last_two prevpt curpt [] = (prevpt, curpt)
  last_two prevpt curpt (nextpt ∷ pts) = last_two curpt nextpt pts

  -- A gate for every one of at least two waypoints. Those that repeat close a loop; otherwise the
  -- first and the last are points.
  pub gates_at : Bool → Point → Point → List Point → List (Gate pl)
  unfolding inner_gates make_gate_from_waypoints
  gates_at repeat first second pts =
      let (before, last) = last_two first second pts in
      (if repeat then make_gate_from_waypoints first last second else (first, first))
        ∷ inner_gates first second pts
      ++ (if repeat then make_gate_from_waypoints last before first else (last, last)) ∷ []

  -- A single waypoint leaves `are_gates` as it is.
  pub waypoints_from : List Point → Planner → Planner
  unfolding gates_at
  waypoints_from [] p = p
  waypoints_from (pt ∷ []) p = record p { waypoints = (pt, pt) ∷ []; next_waypoint = 0 }
  waypoints_from (first ∷ second ∷ pts) p = record p {
    waypoints = gates_at p.repeat_waypoints first second pts;
    are_gates = replicate (length pts + 2) false;
  }

  pub update_waypoints : Planner → Planner
  unfolding waypoints_from lon_lat_to_frame
  update_waypoints p = waypoints_from (map (lon_lat_to_frame p) p.waypoints_lonlat) p

  pub update_obstacles : Planner → Planner
  unfolding lon_lat_to_frame
  update_obstacles p = record p { obstacles = map (map (lon_lat_to_frame p)) p.obstacles_lonlat }

  pub reset_ref : Point → Planner → Planner
  unfolding update_waypoints update_obstacles lon_lat_to_frame
  reset_ref newlonlatref p =
      let (yscale, xscale) = gps_lat_lon_scale floats (y newlonlatref) in
      let p1 = record p { lonlat_ref = newlonlatref; lonlat_scale = point xscale yscale } in
      let p2 = record p1 {
        boat_pos = lon_lat_to_frame p1 p.boat_pos_lonlat;
        prev_boat_pos = lon_lat_to_frame p1 p.prev_boat_pos_lonlat;
      } in
      update_waypoints (update_obstacles p2)

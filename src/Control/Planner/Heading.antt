-- ===== src/Control/Planner/Heading.antt =====
-- `GetGoalHeading` and `Iterate` of control/line_plan.cc.
pub mod Total
use boat.Prelude.{
  ℕ, zero, suc, ◌+◌, ◌-◌, ◌%◌, min, max, Bool, true, false, List, [], ◌∷◌, ◌++◌, map, Option, none,
  some, ◌==◌, if◌then◌else◌, length, get_elem?, ◌>>=◌,
}
use boat.Math.Polygon.{Plane}
use boat.Control.Waypoint.{Tacker, line_plan}
use boat.Control.LinePlan.{Gate, num, heading_of}
use boat.Control.LinePlan.Optimize.{Query}
use boat.Control.LinePlan.FindPath.{middle, find_multiple_path}
use boat.Control.Planner.{Planner, frame_to_lon_lat}

abbrev pub is_line_plan : Tacker → Bool
is_line_plan line_plan = true
is_line_plan _ = false

module _ (pl : Plane) where
  open pl use {floats, Point, plus, minus, times, squared_norm}
  open floats use {F, sub, lt, literal}

  -- What `Iterate` sends.
  pub data Sent : Type 0 where
    heading_cmd : F → Sent
    planner_points : List Point → Sent

  -- The waypoint after the next.
  abbrev pub future_idx : Planner pl → ℕ
  future_idx p =
      let i = p.next_waypoint + 1 in
      if p.repeat_waypoints then i % length p.waypoints else min (length p.waypoints - 1) i

  abbrev pub leg_count : Planner pl → ℕ
  leg_count p =
      max 1 (if p.repeat_waypoints then 1 else min 1 (length p.waypoints - p.next_waypoint))

  -- The gates to plan for, from the round `ii` on.
  pub plan_for_gates : ℕ → ℕ → Planner pl → Option (List (Gate pl))
  plan_for_gates zero ii p = some []
  plan_for_gates (suc n) ii p = do
    gate ← get_elem? p.waypoints ((p.next_waypoint + ii) % length p.waypoints)
    gates ← plan_for_gates n (ii + 1) p
    some (gate ∷ gates)

  abbrev pub end_at : F → Gate pl → Point
  end_at alpha gate = plus (times (sub (num pl 1) alpha) gate.0) (times alpha gate.1)

  -- The legs one after the other, each with its point on the gate. A leg without a point is a failed
  -- check.
  pub joined : List (List Point) → List F → List (Gate pl) → Option (List Point)
  joined [] alphas gates = some []
  joined ([] ∷ legs) alphas gates = none
  joined ((pt ∷ pts) ∷ legs) [] gates = none
  joined ((pt ∷ pts) ∷ legs) (alpha ∷ alphas) [] = none
  joined ((pt ∷ pts) ∷ legs) (alpha ∷ alphas) (gate ∷ gates) = do
    path ← joined legs alphas gates
    some (pt ∷ pts ++ end_at alpha gate ∷ path)

  abbrev pub query_for : Planner pl → Gate pl → List (Gate pl) → Query pl
  query_for p future gates = record {
    gates = gates;
    nextpt = middle pl future;
    winddir = p.wind_dir;
    obstacles = p.obstacles;
    cur_yaw = p.yaw;
  }

  -- The message is written in the loop over the legs.
  abbrev pub with_points : Planner pl → List (List Point) → List Point → Planner pl
  with_points p legs path = record p {
    pathpoints_msg =
        if length legs == 0 then p.pathpoints_msg else map (frame_to_lon_lat pl p) path;
  }

  pub planned_heading : Planner pl → Option (F × Planner pl)
  unfolding plan_for_gates joined
  planned_heading p = do
    future ← get_elem? p.waypoints (future_idx p)
    gates ← plan_for_gates (leg_count p) 0 p
    best ← find_multiple_path pl p.boat_pos (query_for p future gates)
    path ← joined best.tacks best.alphas gates
    p1 ← get_elem? path 1
    p0 ← get_elem? path 0
    some (heading_of pl (minus p1 p0), with_points p best.tacks path)

  -- The course to steer, and the state with the path in the message. `none` is a failed check or an
  -- index out of range.
  pub get_goal_heading : Planner pl → Option (F × Planner pl)
  unfolding planned_heading
  get_goal_heading p = if length p.waypoints == 0 then some (p.yaw, p) else planned_heading p

  abbrev pub is_set_up : Planner pl → Bool
  is_set_up p = if lt (squared_norm p.lonlat_scale) (literal 1 10000000000) then false else true

  pub iterate : Planner pl → Option (Planner pl × List Sent)
  unfolding get_goal_heading
  iterate p =
      if is_line_plan p.tack_mode
      then if is_set_up p
        then (do
          (heading, p') ← get_goal_heading p
          some (p', heading_cmd heading ∷ planner_points p'.pathpoints_msg ∷ []))
        else some (p, [])
      else some (record p { pathpoints_msg = [] }, planner_points [] ∷ [])

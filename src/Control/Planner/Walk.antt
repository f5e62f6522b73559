-- ===== src/Control/Planner/Walk.antt =====
-- `UpdateWaypointInc` of control/line_plan.cc: whether the boat has come past the waypoint that it
-- makes for.
pub mod Steps
use boat.Prelude.{
  ℕ, ◌+◌, ◌-◌, ◌%◌, Bool, true, false, not, ◌&&◌, ◌||◌, List, [], ◌∷◌, Option, none, some, ◌==◌,
  if◌then◌else◌, length, get_elem?, ◌>>=◌,
}
use boat.Prelude.Int.{pos, ◌-ℤ◌, sub_ℕ}
use boat.Math.Polygon.{Plane, dist_to_line, projects_to_line, projects_to_ray}
use boat.Control.LinePlan.{Gate, num}
use boat.Control.Planner.{Planner, TackerState}

module _ (pl : Plane) where
  open pl use {floats, Point, minus, norm}
  open floats use {F, mul, lt, le, literal}

  abbrev pub near_way : Planner pl → Gate pl → Bool
  near_way p gate = lt (norm (minus gate.0 p.boat_pos)) (num pl 8)

  pub passed_line : Planner pl → Gate pl → Bool → Bool
  passed_line p gate is_gate =
      let (gate_start, gate_end) = gate in
      if is_gate
      then projects_to_line pl gate_start gate_end p.prev_boat_pos
        && projects_to_line pl gate_start gate_end p.boat_pos
      else if lt (norm (minus gate_start gate_end)) (literal 1 1000000)
      then lt (norm (minus p.boat_pos gate_start)) (num pl 5)
      else projects_to_ray pl gate_start gate_end p.prev_boat_pos
        && projects_to_ray pl gate_start gate_end p.boat_pos

  abbrev pub crossed_line : Planner pl → Gate pl → Bool
  crossed_line p gate =
      le
        (mul (dist_to_line pl gate.0 gate.1 p.prev_boat_pos)
          (dist_to_line pl gate.0 gate.1 p.boat_pos))
        (num pl 0)

  -- On the last waypoint, and none is to follow.
  abbrev pub at_last : Planner pl → Bool
  at_last p = not p.repeat_waypoints && p.next_waypoint == length p.waypoints - 1

  -- The step to the next waypoint, or a count down.
  unfoldable pub walked : Planner pl → Gate pl → Bool → Planner pl
  unfolding passed_line
  walked p gate is_gate =
      if passed_line p gate is_gate || near_way p gate
      then if crossed_line p gate || near_way p gate
        then record p {
          next_waypoint = (p.next_waypoint + 1) % length p.waypoints;
          crossed_cnt = pos 0;
        }
        else record p { crossed_cnt = p.crossed_cnt -ℤ pos 1 }
      else p

  abbrev pub report : TackerState → Planner pl → Planner pl × List TackerState
  report msg p = (record p { state_msg = msg }, msg ∷ [])

  abbrev pub report_last : Planner pl → Gate pl → Planner pl × List TackerState
  report_last p gate =
      let done = lt (norm (minus gate.0 p.boat_pos)) (num pl 15) in
      report
        (record p.state_msg {
          done = some done;
          last_waypoint = some (if done then pos p.next_waypoint else sub_ℕ p.next_waypoint 1);
        })
        p

  abbrev pub report_walked : Planner pl → Gate pl → Bool → Planner pl × List TackerState
  report_walked p gate is_gate =
      let p' = walked p gate is_gate in
      report
        (record {
          done = some false;
          last_waypoint = some (sub_ℕ p'.next_waypoint 1);
          near_waypoint = some (near_way p gate);
        })
        p'

  -- `none` is an index out of range.
  unfoldable pub update_waypoint_inc : Planner pl → Option (Planner pl × List TackerState)
  unfolding walked
  update_waypoint_inc p =
      if length p.waypoints == 0
      then some (p, [])
      else if at_last p
      then (do gate ← get_elem? p.waypoints p.next_waypoint; some (report_last p gate))
      else do
        gate ← get_elem? p.waypoints p.next_waypoint
        is_gate ← get_elem? p.are_gates p.next_waypoint
        some (report_walked p gate is_gate)

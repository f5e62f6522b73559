-- ===== src/Control/LineTacker/Tests.antt =====
-- Instances for the line tacker (control/line_tacking.cc), over whole numbers.
use boat.Prelude.{ℕ, ◌≤◌, ◌<◌, ◌≡◌, ◌⊎◌, refl, true, some, none, [], ◌∷◌, arith}
use boat.Prelude.Int.{pos, ◌+ℤ◌, ◌-ℤ◌, ◌*ℤ◌}
use boat.Prelude.Floats.Whole.{ints, ints-IsOrdered}
use boat.Control.Waypoint.{line}
use boat.Control.LineTacker.{
  LineTacker, Point, WaypointList, process_waypoints, copy_points, min_ℤ, advance, rem,
}
use boat.Control.LineTacker.Run.{
  dist_to, Leg, start, run, iterate, goal_heading, waypoints_msg, tick, control_mode, leg_of,
  is_near, restart_at_boat, walked, send_goal, choose,
}
use boat.Control.LineTacker.Rewards.{reward, best_heading, is_valid_heading}
use boat.Control.LineTacker.Arrays.{stays_in_arrays}
use boat.Control.LineTacker.Walk.{Walk, here, arrives, leg_after, walk_lem}
use boat.Control.LineTacker.Best.{best_heading_lem, NoneBetter}

abbrev at : ints.F → ints.F → Point ints
at x y = record { x = x; y = y }

abbrev triangle : WaypointList ints
triangle = record {
  points = at (pos 0) (pos 0) ∷ at (pos 1) (pos 1) ∷ at (pos 90) (pos 0) ∷ [];
  restart = true;
  defined_start = true;
  repeat = true;
}

stays_in_arrays_example :
    (t : LineTacker ints) × (run ints
        (waypoints_msg triangle ∷ tick ∷ control_mode (some line) ∷ tick ∷ [])
        (start ints (pos 0))
      ≡ some t)
    × ((len : ℕ) × (t.way_len ≡ pos len) × (len ≤ 10) × ((len ≡ 0) ⊎ (t.i < len)))
stays_in_arrays_example =
    stays_in_arrays ints (pos 0)
      (waypoints_msg triangle ∷ tick ∷ control_mode (some line) ∷ tick ∷ [])
      (refl, (refl, (refl, (refl, tt))))

-- The boat is near the second waypoint.
abbrev at_start : LineTacker ints
unfolding start process_waypoints copy_points min_ℤ ◌+ℤ◌
at_start = elim (process_waypoints ints triangle (start ints (pos 0))) [
  | none ↦ start ints (pos 0)
  | some t ↦ t
]

abbrev leg : Leg ints
leg = record { start = at (pos 0) (pos 0); end = at (pos 1) (pos 1); moe = pos 10 }

abbrev behind : LineTacker ints
behind = elim (iterate ints at_start) [ none ↦ at_start | some (t, out) ↦ t ]

first_leg : Walk ints at_start 1 behind
unfolding start process_waypoints copy_points min_ℤ ◌+ℤ◌ iterate goal_heading leg_of is_near
    restart_at_boat walked send_goal choose rem advance dist_to ◌*ℤ◌ ◌-ℤ◌
first_leg = arrives leg here refl refl refl refl

walk_lem_example : (behind.way_len ≡ pos 3) × (behind.i ≡ leg_after ints at_start.repeat 3 1)
unfolding start process_waypoints copy_points min_ℤ ◌+ℤ◌
walk_lem_example = walk_lem ints 3 (omega arith) refl refl first_leg

best_heading_lem_example :
    let reward_of = λ (h : ints.F). reward ints (pos 1) h at_start in
    let is_valid = λ (h : ints.F). is_valid_heading ints h at_start in
    let h = best_heading ints (pos 1) (pos 1 ∷ pos 2 ∷ []) at_start in
    ((h ≡ pos 1) × NoneBetter ints ints-IsOrdered reward_of is_valid (pos 0) (pos 1 ∷ pos 2 ∷ []))
    ⊎ ((is_valid h ≡ true)
        × (ints.lt (pos 0) (reward_of h) ≡ true)
        × NoneBetter ints ints-IsOrdered reward_of is_valid (reward_of h) (pos 1 ∷ pos 2 ∷ []))
best_heading_lem_example =
    best_heading_lem ints ints-IsOrdered (pos 1) (pos 1 ∷ pos 2 ∷ []) at_start

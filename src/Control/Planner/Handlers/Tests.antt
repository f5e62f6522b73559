-- ===== src/Control/Planner/Handlers/Tests.antt =====
-- Instances for the line planner (control/line_plan.cc), over whole coordinates.
use boat.Prelude.{
  ◌≡◌, ◌⊎◌, refl, inl, inr, true, false, List, [], ◌∷◌, ◌++◌, none, some, length, get_elem?, All,
  arith,
}
use boat.Prelude.Int.{ℤ, pos, ltb_ℤ}
use boat.Prelude.Floats.Whole.{ints-IsOrdered}
use boat.Math.Polygon.Grid.{grid}
use boat.Control.LinePlan.Obstacles.{AreSolid}
use boat.Control.LinePlan.Optimize.{Query}
use boat.Control.LinePlan.Hypotheses.{generate_hypotheses}
use boat.Control.LinePlan.Hypotheses.Paths.{IsPathFrom, paths_for, generate_hypotheses_lem}
use boat.Control.LinePlan.FindPath.{
  Hypothesis, Best, find_multiple_path, all_hypotheses, default_alphas,
}
use boat.Control.LinePlan.FindPath.Total.{IsRoute, find_multiple_path-IsRoute}
use boat.Control.LinePlan.FindPath.Cheapest.{IsNoCheaper, IsOptimised, find_multiple_path-cheapest}
use boat.Control.Planner.{Planner, TackerState}
use boat.Control.Planner.Gates.{IsMade}
use boat.Control.Planner.Fenced.{IsInOrder}
use boat.Control.Planner.Walk.{update_waypoint_inc}
use boat.Control.Planner.Walk.Steps.{Walks, update_waypoint_inc_lem}
use boat.Control.Planner.Handlers.{
  WaypointList, Event, waypoints, planner_obstacles, boat_state, true_wind, tick, Output, Memory,
  unread, start, run,
}
use boat.Control.Planner.Handlers.Safe.{Goes, start-run_safe}
use boat.Control.Planner.Handlers.Single.{single_repeated_faults}
use boat.Control.Waypoint.{line_plan}

abbrev origin : ℤ × ℤ
origin = (pos 0, pos 0)

abbrev buoy : ℤ × ℤ
buoy = (pos 40, pos 30)

abbrev mark : ℤ × ℤ
mark = (pos 90, pos 10)

abbrev shoal : List (ℤ × ℤ)
shoal = (pos 20, pos 20) ∷ (pos 30, pos 20) ∷ (pos 20, pos 30) ∷ []

abbrev query : Query grid
query = record {
  gates = (buoy, mark) ∷ [];
  nextpt = mark;
  winddir = pos 1;
  obstacles = shoal ∷ [];
  cur_yaw = pos 2;
}

abbrev solid : AreSolid grid query.obstacles
solid = (omega arith, tt)

generate_hypotheses_lem_example :
    (added : List (List (ℤ × ℤ))) × (generate_hypotheses grid origin buoy (pos 1) 2 [] true
      ≡ [] ++ added)
    × (length added ≡ paths_for grid origin buoy (pos 1) 2)
    × All (IsPathFrom grid origin 3) added
generate_hypotheses_lem_example = generate_hypotheses_lem grid origin buoy (pos 1) 2 [] true

find_multiple_path-IsRoute_example :
    (best : Best grid) × (find_multiple_path grid origin query ≡ some best)
    × IsRoute grid origin 1 6 best.tacks best.alphas
find_multiple_path-IsRoute_example =
    find_multiple_path-IsRoute grid origin query solid (omega arith)

abbrev plan : Best grid
plan = (find_multiple_path-IsRoute grid origin query solid (omega arith)).0

find_multiple_path-cheapest_example :
    let hs = all_hypotheses grid origin query.gates query.winddir in
    (((ltb_ℤ plan.lowest_cost grid.infinity ≡ true) × IsOptimised grid query plan hs)
      ⊎ ((first : Hypothesis grid) × (get_elem? hs 0 ≡ some first)
          × (plan ≡ record {
            lowest_cost = grid.infinity;
            tacks = first.paths;
            alphas = default_alphas grid query;
          })))
    × All (IsNoCheaper grid query plan.lowest_cost) hs
find_multiple_path-cheapest_example =
    find_multiple_path-cheapest grid ints-IsOrdered origin query plan (omega arith)
      (find_multiple_path-IsRoute grid origin query solid (omega arith)).1

abbrev found : Memory grid
found = record {
  yaw = pos 7;
  wind_dir = pos 8;
  boat_pos = origin;
  boat_pos_lonlat = mark;
  prev_boat_pos = buoy;
  prev_boat_pos_lonlat = buoy;
}

-- Two waypoints, on the way to the second.
abbrev under_way : Planner grid
under_way = record {
  crossed_cnt = pos 0;
  yaw = pos 1;
  wind_dir = pos 2;
  boat_pos = (pos 38, pos 30);
  boat_pos_lonlat = (pos 38, pos 30);
  prev_boat_pos = origin;
  prev_boat_pos_lonlat = origin;
  lonlat_ref = origin;
  lonlat_scale = (pos 1, pos 1);
  obstacles_lonlat = [];
  obstacles = [];
  waypoints_lonlat = buoy ∷ mark ∷ [];
  pathpoints_msg = [];
  waypoints = (buoy, buoy) ∷ (mark, mark) ∷ [];
  are_gates = false ∷ false ∷ [];
  next_waypoint = 0;
  repeat_waypoints = false;
  state_msg = record { done = none; last_waypoint = none; near_waypoint = none };
  tack_mode = line_plan;
}

update_waypoint_inc_lem_example :
    (p' : Planner grid) × (out : List TackerState) × (update_waypoint_inc grid under_way
      ≡ some (p', out))
    × IsMade grid p'
    × Walks grid under_way p'
update_waypoint_inc_lem_example =
    update_waypoint_inc_lem grid under_way
      ((refl, inr (omega arith), inl (omega arith)), inr (inl refl, omega arith, omega arith))

abbrev course : WaypointList grid
course = record { points = buoy ∷ mark ∷ []; restart = true; defined_start = true; repeat = true }

abbrev events : List (Event grid)
events =
    waypoints course
    ∷ planner_obstacles ((buoy ∷ []) ∷ shoal ∷ [])
    ∷ boat_state origin (pos 1)
    ∷ true_wind (pos 1) (pos 0)
    ∷ tick
    ∷ []

start-run_safe_example :
    (p : Planner grid) × (out : List (Output grid)) × (start grid false found none none
      ≡ some (p, out))
    × IsInOrder grid p
    × Goes grid (run grid false events p)
start-run_safe_example =
    start-run_safe grid false found none none events tt tt
      (inr (inr (omega arith)), (inl refl, (tt, (tt, (tt, tt)))))

abbrev alone : WaypointList grid
alone = record { points = buoy ∷ []; restart = true; defined_start = true; repeat = true }

single_repeated_faults_example :
    run grid true (waypoints alone ∷ boat_state origin (pos 1) ∷ []) (unread grid found) ≡ none
single_repeated_faults_example =
    single_repeated_faults grid true alone origin (pos 1) (unread grid found) refl refl refl
      (unfold unread in refl)

-- ===== src/Control/Planner/Handlers/Safe.antt =====
-- Every handler of `LinePlan` (control/line_plan.cc) keeps the lists in order and every obstacle with a vertex, and so no run of the
-- planner fails a check or reads out of range.
use boat.Prelude.{◌≡◌, refl, inl, Bool, List, [], ◌∷◌, ◌++◌, map, Option, none, some, All, arith}
use boat.Math.Polygon.{Plane}
use boat.Control.Planner.{Planner}
use boat.Control.Planner.Fenced.{IsInOrder, update_waypoint_inc-IsFenced}
use boat.Control.Planner.Walk.Steps.{update_waypoint_inc_lem}
use boat.Control.Planner.Heading.Total.{iterate-IsInOrder}
use boat.Control.Planner.Handlers.{
  WaypointList, receive_waypoints, moved_to, receive_boat_state, Event, waypoints,
  planner_obstacles, control_mode, boat_state, true_wind, tick, Output, tacker_state, sent,
  initial_obstacles, with_tacker, step, run, Memory, unread, read_waypoints, read_obstacles, start,
}
use boat.Control.Planner.Handlers.Taken.{
  IsSailable, AreTaken, IsTaken, receive_waypoints-IsInOrder, receive_obstacles-IsInOrder,
  moved_to-IsInOrder,
}

module _ (pl : Plane) where
  open pl use {floats, Point, x, y}
  open floats use {F, lt, atan2}

  -- What is on file, if anything, is as it should be.
  abbrev pub OnFile : {A : Type 0} → (A → Type 0) → Option A → Type 0
  OnFile P none = Unit
  OnFile P (some a) = P a

  -- A step that is taken, and leaves the lists in order and every obstacle with a vertex.
  abbrev pub Goes : Option (Planner pl × List (Output pl)) → Type 0
  Goes r = (p : Planner pl) × (out : List (Output pl)) × (r ≡ some (p, out)) × IsInOrder pl p

  step-Goes :
      (verbose : Bool) (e : Event pl) (p : Planner pl)
      → IsTaken pl verbose e
      → IsInOrder pl p
      → Goes (step pl verbose e p)
  unfolding step receive_boat_state
  step-Goes verbose (waypoints msg) p h m =
      (receive_waypoints pl msg p, [], refl, receive_waypoints-IsInOrder pl msg p h m)
  step-Goes verbose (planner_obstacles msg) p h m =
      let (p', e, m') = receive_obstacles-IsInOrder pl verbose msg p h m.0 in (p', [], rw e, m')
  step-Goes verbose (control_mode none) p h m = (p, [], refl, m)
  step-Goes verbose (control_mode (some t)) p h m = (with_tacker pl (some t) p, [], refl, m)
  step-Goes verbose (boat_state lonlat yaw) p h m =
      let (m1, f1) = moved_to-IsInOrder pl lonlat yaw p m in
      let (p', out, e, m', _) = update_waypoint_inc_lem pl (moved_to pl lonlat yaw p) m1 in
      let f' = update_waypoint_inc-IsFenced pl (moved_to pl lonlat yaw p) p' out f1 e in
      (p', map tacker_state out, rw e, (m', f'))
  step-Goes verbose (true_wind wx wy) p h m = (record p { wind_dir = atan2 wy wx }, [], refl, m)
  step-Goes verbose tick p h m =
      let (p', out, e, m') = iterate-IsInOrder pl p m in (p', map sent out, rw e, m')

  run-Goes :
      (verbose : Bool) (es : List (Event pl)) (p : Planner pl)
      → All (IsTaken pl verbose) es
      → IsInOrder pl p
      → Goes (run pl verbose es p)
  unfolding run
  run-Goes verbose [] p h m = (p, [], refl, m)
  run-Goes verbose (e ∷ es) p (h, hs) m =
      let (p1, out1, e1, m1) = step-Goes verbose e p h m in
      let (p2, out2, e2, m2) = run-Goes verbose es p1 hs m1 in (p2, out1 ++ out2, rw (e1, e2), m2)

  read_waypoints-IsInOrder :
      (way_list : Option (WaypointList pl)) (p : Planner pl)
      → OnFile (IsSailable pl) way_list
      → IsInOrder pl p
      → IsInOrder pl (read_waypoints pl way_list p).0
  unfolding read_waypoints
  read_waypoints-IsInOrder none p h m = m
  read_waypoints-IsInOrder (some msg) p h m = receive_waypoints-IsInOrder pl msg p h m

  read_obstacles-Goes :
      (verbose : Bool) (obs_list : Option (List (List Point))) (p : Planner pl)
      → OnFile (AreTaken pl verbose) obs_list
      → IsInOrder pl p
      → Goes (read_obstacles pl verbose obs_list p)
  unfolding read_obstacles
  read_obstacles-Goes verbose none p h m = (p, [], refl, m)
  read_obstacles-Goes verbose (some msg) p h m =
      let (p', e, m') = receive_obstacles-IsInOrder pl verbose msg p h m.0 in
      (p', initial_obstacles msg ∷ [], rw e, m')

  unread-IsInOrder : (m : Memory pl) → IsInOrder pl (unread pl m)
  unfolding unread
  unread-IsInOrder m = (((refl, inl refl, inl (omega arith)), inl refl), (tt, tt))

  -- The constructor and then any messages and rounds, in any order: no check fails and nothing is read
  -- out of range, in the lists, the paths and the polygons, whatever the uninitialised memory held;
  -- and the lists stay in order, and every obstacle keeps a vertex. For this no list on file or in a
  -- message may have a single waypoint that repeats, and with `verbose` set no obstacle may be invalid.
  pub start-run_safe :
      (verbose : Bool) (m : Memory pl) (way_list : Option (WaypointList pl))
      (obs_list : Option (List (List Point))) (es : List (Event pl))
      → OnFile (IsSailable pl) way_list
      → OnFile (AreTaken pl verbose) obs_list
      → All (IsTaken pl verbose) es
      → (p : Planner pl) × (out : List (Output pl)) × (start pl verbose m way_list obs_list
          ≡ some (p, out))
        × IsInOrder pl p
        × Goes (run pl verbose es p)
  unfolding start
  start-run_safe verbose m way_list obs_list es h k t =
      let p1 = (read_waypoints pl way_list (unread pl m)).0 in
      let (p2, out, e, m2) =
        read_obstacles-Goes verbose obs_list p1 k
          (read_waypoints-IsInOrder way_list (unread pl m) h (unread-IsInOrder m)) in
      (
        p2,
        (read_waypoints pl way_list (unread pl m)).1 ++ out,
        rw e,
        m2,
        run-Goes verbose es p2 t m2,
      )

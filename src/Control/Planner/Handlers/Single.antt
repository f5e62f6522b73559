-- ===== src/Control/Planner/Handlers/Single.antt =====
-- A single waypoint that repeats (control/line_plan.cc): `are_gates_` is read where nothing is.
use boat.Prelude.{
  ◌≡◌, ◌==◌, inl, inr, Bool, true, false, List, [], ◌∷◌, none, length, Bool-cases, arith,
}
use boat.Math.Polygon.{Plane}
use boat.Control.Util.{gps_distance}
use boat.Control.LinePlan.{num, equal}
use boat.Control.Planner.{Planner}
use boat.Control.Planner.Gates.{update_waypoints-IsAlone, reset_ref-IsAlone, IsSingle, IsAlone}
use boat.Control.Planner.Walk.Steps.{update_waypoint_inc-IsAlone}
use boat.Control.Planner.Handlers.{
  WaypointList, ref_at, placed, with_ref, listed, receive_waypoints, moved_to, receive_boat_state,
  waypoints, boat_state, step, run,
}

module _ (pl : Plane) where
  open pl use {floats, Point, x, y}
  open floats use {F, lt}

  ref_at-IsSingle :
      (pts : List Point) (p : Planner pl) → IsSingle pl p → IsSingle pl (ref_at pl pts p)
  ref_at-IsSingle [] p h = h
  ref_at-IsSingle (pt ∷ pts) p h = (reset_ref-IsAlone pl pt p h).0

  with_ref-IsSingle : (p : Planner pl) → IsSingle pl p → IsSingle pl (with_ref pl p)
  unfolding with_ref
  with_ref-IsSingle p h = elim (Bool-cases (equal pl (x p.lonlat_scale) (num pl 0))) [
    | inl e ↦ rw e (ref_at-IsSingle p.waypoints_lonlat p h)
    | inr e ↦ rw e h
  ]

  receive_waypoints-IsAlone :
      (msg : WaypointList pl) (p : Planner pl)
      → msg.repeat ≡ true
      → msg.defined_start ≡ true
      → length msg.points ≡ 1
      → p.are_gates ≡ []
      → IsAlone pl (receive_waypoints pl msg p)
  unfolding receive_waypoints
  receive_waypoints-IsAlone msg p r d n g =
      let some_points : (length msg.points == 0) ≡ false = ground (arith, n) in
      rw some_points (
        update_waypoints-IsAlone pl (with_ref pl (listed pl msg p))
          (with_ref-IsSingle (listed pl msg p) (rw d n, g, r)))

  moved_to-IsAlone :
      (lonlat : Point) (yaw : F) (p : Planner pl)
      → IsAlone pl p
      → IsAlone pl (moved_to pl lonlat yaw p)
  unfolding moved_to
  moved_to-IsAlone lonlat yaw p h =
      let ref = p.lonlat_ref in
      elim (Bool-cases
        (lt (num pl 100) (gps_distance floats (y lonlat) (x lonlat) (y ref) (x ref)))) [
          | inl e ↦ rw e (reset_ref-IsAlone pl lonlat (placed pl lonlat yaw p) h.0)
          | inr e ↦ rw e h
        ]

  -- A list of one waypoint that repeats, to a planner that has had no list of two, and then the first
  -- position of the boat, wherever it is: `are_gates_` is read out of its range.
  pub single_repeated_faults :
      (verbose : Bool) (msg : WaypointList pl) (lonlat : Point) (yaw : F) (p : Planner pl)
      → msg.repeat ≡ true
      → msg.defined_start ≡ true
      → length msg.points ≡ 1
      → p.are_gates ≡ []
      → run pl verbose (waypoints msg ∷ boat_state lonlat yaw ∷ []) p ≡ none
  unfolding run step receive_boat_state
  single_repeated_faults verbose msg lonlat yaw p r d n g =
      let p1 = receive_waypoints pl msg p in
      rw (
        update_waypoint_inc-IsAlone pl (moved_to pl lonlat yaw p1)
          (moved_to-IsAlone lonlat yaw p1 (receive_waypoints-IsAlone msg p r d n g)))

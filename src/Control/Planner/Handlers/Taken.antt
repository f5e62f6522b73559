-- ===== src/Control/Planner/Handlers/Taken.antt =====
-- What a message may bring `LinePlan` (control/line_plan.cc), and that its handler keeps the lists in
-- order.
use boat.Prelude.{
  suc, ◌<◌, ◌≤◌, ◌≡◌, ◌≢◌, refl, ◌⊎◌, inl, inr, Bool, true, false, List, [], ◌∷◌, some, ◌==◌,
  length, All, Bool-cases, arith,
}
use boat.Math.Polygon.{Plane, validate_points}
use boat.Math.Polygon.InRange.{validate_points-total}
use boat.Control.Util.{gps_distance}
use boat.Control.LinePlan.{num, equal}
use boat.Control.LinePlan.Obstacles.{AreSolid}
use boat.Control.Planner.{Planner, update_obstacles}
use boat.Control.Planner.Gates.{
  IsLoop, IsListed, IsMade, IsMade-IsReady, update_waypoints-IsMade, reset_ref-IsMade,
  reset_ref-IsListed, update_obstacles-IsMade,
}
use boat.Control.Planner.Fenced.{
  IsFenced, IsInOrder, update_waypoints-IsFenced, update_obstacles-IsFenced, reset_ref-IsFenced,
}
use boat.Control.Planner.Handlers.{
  WaypointList, ref_at, placed, waypoints_lonlat_of, listed, with_ref, receive_waypoints,
  valid_obstacles, receive_obstacles, moved_to, Event, waypoints, planner_obstacles,
}

module _ (pl : Plane) where
  open pl use {floats, Point, x, y}
  open floats use {F, lt, atan2}

  -- A list that does not repeat, or one of two waypoints at least, the place of the boat among them
  -- where the start is left open.
  abbrev pub IsSailable : WaypointList pl → Type 0
  IsSailable msg = (msg.repeat ≡ false) ⊎ (msg.defined_start ≡ false) ⊎ (2 ≤ length msg.points)

  -- Obstacles, unless an invalid one is to end the program.
  abbrev pub AreTaken : Bool → List (List Point) → Type 0
  AreTaken verbose msg = (verbose ≡ false) ⊎ All (λ pts. validate_points pl pts ≡ some true) msg

  abbrev pub IsTaken : Bool → Event pl → Type 0
  IsTaken verbose (waypoints msg) = IsSailable msg
  IsTaken verbose (planner_obstacles msg) = AreTaken verbose msg
  IsTaken verbose _ = Unit

  length-waypoints_lonlat_of :
      (msg : WaypointList pl) (p : Planner pl)
      → (length msg.points ≤ length (waypoints_lonlat_of pl msg p))
        × (msg.defined_start ≡ false
            → length (waypoints_lonlat_of pl msg p) ≡ suc (length msg.points))
  length-waypoints_lonlat_of msg p = elim (Bool-cases msg.defined_start) [
    | inl e ↦ (rw e (omega arith), λ f. absurd cc)
    | inr e ↦ (rw e (omega arith), λ f. rw e)
  ]

  listed-IsListed :
      (msg : WaypointList pl) (p : Planner pl)
      → IsSailable msg
      → length msg.points ≢ 0
      → IsListed pl (listed pl msg p)
  listed-IsListed msg p h n =
      let (l, k) = length-waypoints_lonlat_of msg p in
      let some_points : 0 < length msg.points = ground (arith, n) in
      let loop : IsLoop pl (listed pl msg p) = elim h [
        | inl r ↦ inl r
        | inr (inl d) ↦ inr (omega (arith, k d, some_points))
        | inr (inr two) ↦ inr (omega (arith, l, two))
      ] in
      (loop, omega (arith, l, some_points), omega (arith, l, some_points))

  ref_at-IsListed :
      (pts : List Point) (p : Planner pl) → IsListed pl p → IsListed pl (ref_at pl pts p)
  ref_at-IsListed [] p h = h
  ref_at-IsListed (pt ∷ pts) p h = reset_ref-IsListed pl pt p h

  with_ref-IsListed : (p : Planner pl) → IsListed pl p → IsListed pl (with_ref pl p)
  unfolding with_ref
  with_ref-IsListed p h = elim (Bool-cases (equal pl (x p.lonlat_scale) (num pl 0))) [
    | inl e ↦ rw e (ref_at-IsListed p.waypoints_lonlat p h)
    | inr e ↦ rw e h
  ]

  ref_at-IsFenced :
      (pts : List Point) (p : Planner pl) → IsFenced pl p → IsFenced pl (ref_at pl pts p)
  ref_at-IsFenced [] p f = f
  ref_at-IsFenced (pt ∷ pts) p f = reset_ref-IsFenced pl pt p f

  with_ref-IsFenced : (p : Planner pl) → IsFenced pl p → IsFenced pl (with_ref pl p)
  unfolding with_ref
  with_ref-IsFenced p f = elim (Bool-cases (equal pl (x p.lonlat_scale) (num pl 0))) [
    | inl e ↦ rw e (ref_at-IsFenced p.waypoints_lonlat p f)
    | inr e ↦ rw e f
  ]

  pub receive_waypoints-IsInOrder :
      (msg : WaypointList pl) (p : Planner pl)
      → IsSailable msg
      → IsInOrder pl p
      → IsInOrder pl (receive_waypoints pl msg p)
  unfolding receive_waypoints
  receive_waypoints-IsInOrder msg p h m = elim (Bool-cases (length msg.points == 0)) [
    | inl e ↦ rw e m
    | inr e ↦ rw e (
      update_waypoints-IsMade pl (with_ref pl (listed pl msg p))
          (inr (with_ref-IsListed (listed pl msg p) (listed-IsListed msg p h (ground (arith, e))))),
      update_waypoints-IsFenced pl (with_ref pl (listed pl msg p))
          (with_ref-IsFenced (listed pl msg p) m.1),
    )
  ]

  valid_obstacles-AreSolid :
      (verbose : Bool) (msg : List (List Point))
      → AreTaken verbose msg
      → (kept : List (List Point)) × (valid_obstacles pl verbose msg ≡ some kept) × AreSolid pl kept
  unfolding valid_obstacles
  valid_obstacles-AreSolid verbose [] h = ([], refl, tt)
  valid_obstacles-AreSolid verbose (pts ∷ msg) (inl h) =
      let (kept, e, solid) = valid_obstacles-AreSolid verbose msg (inl h) in
      let (valid, v, two) = validate_points-total pl pts in
      elim (Bool-cases valid) [
        | inl c ↦ (pts ∷ kept, rw (v, c, e), (omega (arith, two c), solid))
        | inr c ↦ (kept, rw (v, c, h) e, solid)
      ]
  valid_obstacles-AreSolid verbose (pts ∷ msg) (inr (v, vs)) =
      let (kept, e, solid) = valid_obstacles-AreSolid verbose msg (inr vs) in
      let (valid, v', two) = validate_points-total pl pts in
      let same : valid ≡ true = cc in (pts ∷ kept, rw (v, e), (omega (arith, two same), solid))

  pub receive_obstacles-IsInOrder :
      (verbose : Bool) (msg : List (List Point)) (p : Planner pl)
      → AreTaken verbose msg
      → IsMade pl p
      → (p' : Planner pl) × (receive_obstacles pl verbose msg p ≡ some p') × IsInOrder pl p'
  unfolding receive_obstacles
  receive_obstacles-IsInOrder verbose msg p h m =
      let (kept, e, solid) = valid_obstacles-AreSolid verbose msg h in
      let p1 = record p { obstacles_lonlat = kept } in
      (
        update_obstacles pl p1,
        rw e,
        (update_obstacles-IsMade pl p1 m, update_obstacles-IsFenced pl p1 solid),
      )

  pub moved_to-IsInOrder :
      (lonlat : Point) (yaw : F) (p : Planner pl)
      → IsInOrder pl p
      → IsInOrder pl (moved_to pl lonlat yaw p)
  unfolding moved_to
  moved_to-IsInOrder lonlat yaw p m =
      let ref = p.lonlat_ref in
      elim (Bool-cases
        (lt (num pl 100) (gps_distance floats (y lonlat) (x lonlat) (y ref) (x ref)))) [
          | inl e ↦ rw e (
            reset_ref-IsMade pl lonlat (placed pl lonlat yaw p)
                (IsMade-IsReady pl (placed pl lonlat yaw p) m.0),
            reset_ref-IsFenced pl lonlat (placed pl lonlat yaw p) m.1,
          )
          | inr e ↦ rw e m
        ]

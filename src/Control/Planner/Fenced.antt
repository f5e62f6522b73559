-- ===== src/Control/Planner/Fenced.antt =====
-- Each obstacle that the planner (control/line_plan.cc) keeps has a vertex, whatever it does.
use boat.Prelude.{
  ◌<◌, ◌≡◌, ap, subst, Bool, ◌||◌, List, [], ◌∷◌, map, Option, none, some, ◌==◌, length, get_elem?,
  ◌>>=◌, Bool-cases, inl, inr, arith,
}
use boat.Math.Polygon.{Plane}
use boat.Control.Util.{gps_lat_lon_scale}
use boat.Control.LinePlan.{Gate}
use boat.Control.LinePlan.Obstacles.{AreSolid}
use boat.Control.Planner.{
  Planner, TackerState, lon_lat_to_frame, waypoints_from, update_waypoints, update_obstacles,
  reset_ref,
}
use boat.Control.Planner.Gates.{IsMade}
use boat.Control.Planner.Walk.{
  passed_line, near_way, crossed_line, at_last, walked, report_last, report_walked,
  update_waypoint_inc,
}

module _ (pl : Plane) where
  open pl use {floats, Point, point, y}
  open floats use {F}

  abbrev pub IsFenced : Planner pl → Type 0
  IsFenced p = AreSolid pl p.obstacles_lonlat × AreSolid pl p.obstacles

  -- The lists are in order, and each obstacle has a vertex.
  abbrev pub IsInOrder : Planner pl → Type 0
  IsInOrder p = IsMade pl p × IsFenced p

  map-solid : (f : Point → Point) (pts : List Point) → 0 < length pts → 0 < length (map f pts)
  map-solid f [] h = h
  map-solid f (p ∷ pts) h = omega arith

  map-AreSolid :
      (f : Point → Point) (polygons : List (List Point))
      → AreSolid pl polygons
      → AreSolid pl (map (map f) polygons)
  map-AreSolid f [] h = tt
  map-AreSolid f (pts ∷ polygons) (h, hs) = (map-solid f pts h, map-AreSolid f polygons hs)

  waypoints_from-IsFenced :
      (pts : List Point) (p : Planner pl) → IsFenced p → IsFenced (waypoints_from pl pts p)
  unfolding waypoints_from
  waypoints_from-IsFenced [] p f = f
  waypoints_from-IsFenced (pt ∷ []) p f = f
  waypoints_from-IsFenced (first ∷ second ∷ pts) p f = f

  pub update_waypoints-IsFenced : (p : Planner pl) → IsFenced p → IsFenced (update_waypoints pl p)
  unfolding update_waypoints
  update_waypoints-IsFenced p f = waypoints_from-IsFenced _ p f

  pub update_obstacles-IsFenced :
      (p : Planner pl) → AreSolid pl p.obstacles_lonlat → IsFenced (update_obstacles pl p)
  unfolding update_obstacles
  update_obstacles-IsFenced p h = (h, map-AreSolid (lon_lat_to_frame pl p) p.obstacles_lonlat h)

  pub reset_ref-IsFenced : (pt : Point) (p : Planner pl) → IsFenced p → IsFenced (reset_ref pl pt p)
  unfolding reset_ref
  reset_ref-IsFenced pt p f =
      let (yscale, xscale) = gps_lat_lon_scale floats (y pt) in
      let p1 = record p { lonlat_ref = pt; lonlat_scale = point xscale yscale } in
      let p2 = record p1 {
        boat_pos = lon_lat_to_frame pl p1 p.boat_pos_lonlat;
        prev_boat_pos = lon_lat_to_frame pl p1 p.prev_boat_pos_lonlat;
      } in
      update_waypoints-IsFenced (update_obstacles pl p2) (update_obstacles-IsFenced p2 f.0)

  walked-IsFenced :
      (p : Planner pl) (gate : Gate pl) (is_gate : Bool)
      → IsFenced p
      → IsFenced (walked pl p gate is_gate)
  unfolding walked
  walked-IsFenced p gate is_gate f =
      elim (Bool-cases (passed_line pl p gate is_gate || near_way pl p gate)) [
        | inl e ↦ elim (Bool-cases (crossed_line pl p gate || near_way pl p gate)) [
          | inl c ↦ rw (e, c) f
          | inr c ↦ rw (e, c) f
        ]
        | inr e ↦ rw e f
      ]

  -- Whatever is returned is fenced.
  abbrev LeavesFenced : Option (Planner pl × List TackerState) → Type 0
  LeavesFenced r = (p' : Planner pl) (out : List TackerState) → r ≡ some (p', out) → IsFenced p'

  some-LeavesFenced : (r : Planner pl × List TackerState) → IsFenced r.0 → LeavesFenced (some r)
  some-LeavesFenced r f p' out e =
      let same : r ≡ (p', out) = cc in subst IsFenced (ap (λ s. s.0) same) f

  bind-LeavesFenced :
      {A : Type 0} (r : Option A) {f : A → Option (Planner pl × List TackerState)}
      → ((a : A) → LeavesFenced (f a))
      → LeavesFenced (r >>= f)
  bind-LeavesFenced none h p out e = absurd cc
  bind-LeavesFenced (some a) h p out e = h a p out e

  pub update_waypoint_inc-IsFenced :
      (p p' : Planner pl) (out : List TackerState)
      → IsFenced p
      → update_waypoint_inc pl p ≡ some (p', out)
      → IsFenced p'
  unfolding update_waypoint_inc
  update_waypoint_inc-IsFenced p p' out f e = elim (Bool-cases (length p.waypoints == 0)) [
    | inl z ↦ some-LeavesFenced (p, []) f p' out (rw z at e)
    | inr z ↦ elim (Bool-cases (at_last pl p)) [
      | inl l ↦
          bind-LeavesFenced (get_elem? p.waypoints p.next_waypoint)
            (λ gate. some-LeavesFenced (report_last pl p gate) f) p' out (rw (z, l) at e)
      | inr l ↦
          bind-LeavesFenced (get_elem? p.waypoints p.next_waypoint)
            (λ gate. bind-LeavesFenced (get_elem? p.are_gates p.next_waypoint) (λ is_gate.
              some-LeavesFenced (report_walked pl p gate is_gate)
                (walked-IsFenced p gate is_gate f)))
            p' out (rw (z, l) at e)
    ]
  ]

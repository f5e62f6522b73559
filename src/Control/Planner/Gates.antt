-- ===== src/Control/Planner/Gates.antt =====
-- The gates of `LinePlan` (control/line_plan.cc): one for each waypoint, and the waypoint that the boat
-- makes for is one of them.
use boat.Prelude.{
  suc, ◌+◌, ◌<◌, ◌≤◌, ◌≡◌, refl, ap, ◌∙◌, ◌⊎◌, inl, inr, Bool, true, false, List, [], ◌∷◌, map,
  length, length-append, length-replicate, arith,
}
use boat.Math.Polygon.{Plane}
use boat.Control.Planner.{
  Planner, lon_lat_to_frame, inner_gates, gates_at, waypoints_from, update_waypoints,
  update_obstacles, reset_ref,
}

module _ (pl : Plane) where
  open pl use {floats, Point}
  open floats use {F}

  -- Every index that the code reads at is in range: the next waypoint is one of those that there are,
  -- and each has its place in `are_gates`, which is not looked at for a single one that does not
  -- repeat.
  abbrev pub IsSound : Planner pl → Type 0
  IsSound p =
      (length p.waypoints ≡ length p.waypoints_lonlat)
      × ((length p.waypoints ≡ 0) ⊎ (p.next_waypoint < length p.waypoints))
      × ((length p.waypoints ≤ length p.are_gates)
          ⊎ ((length p.waypoints ≡ 1) × (p.repeat_waypoints ≡ false)))

  -- A list whose waypoints repeat has two at least.
  abbrev pub IsLoop : Planner pl → Type 0
  IsLoop p = (p.repeat_waypoints ≡ false) ⊎ (2 ≤ length p.waypoints_lonlat)

  -- What a list that has been received has settled, before the gates are made.
  abbrev pub IsListed : Planner pl → Type 0
  IsListed p =
      IsLoop p × (0 < length p.waypoints_lonlat) × (p.next_waypoint < length p.waypoints_lonlat)

  length-inner_gates :
      (p q : Point) (pts : List Point) → length (inner_gates pl p q pts) ≡ length pts
  unfolding inner_gates
  length-inner_gates p q [] = refl
  length-inner_gates p q (r ∷ pts) = omega (arith, length-inner_gates q r pts)

  length-gates_at :
      (repeat : Bool) (p q : Point) (pts : List Point)
      → length (gates_at pl repeat p q pts) ≡ length pts + 2
  unfolding gates_at
  length-gates_at repeat p q pts =
      ap suc (length-append (inner_gates pl p q pts) _) ∙ omega (arith, length-inner_gates p q pts)

  length-map : (f : Point → Point) (pts : List Point) → length (map f pts) ≡ length pts
  length-map f [] = refl
  length-map f (p ∷ pts) = omega (arith, length-map f pts)

  waypoints_from-IsSound :
      (pts : List Point) (p : Planner pl)
      → length pts ≡ length p.waypoints_lonlat
      → IsListed p
      → IsSound (waypoints_from pl pts p)
  unfolding waypoints_from
  waypoints_from-IsSound [] p e (l, m, n) = absurd (omega (arith, e, m))
  waypoints_from-IsSound (pt ∷ []) p e (inl l, m, n) =
      (omega (arith, e), inr (omega arith), inr (refl, l))
  waypoints_from-IsSound (pt ∷ []) p e (inr l, m, n) = absurd (omega (arith, e, l))
  waypoints_from-IsSound (first ∷ second ∷ pts) p e (l, m, n) =
      let k = length-gates_at p.repeat_waypoints first second pts in
      let r = length-replicate (length pts + 2) false in
      (omega (arith, k, e), inr (omega (arith, k, e, n)), inl (omega (arith, k, r)))

  -- The lists that a step may start from, and those that it leaves.
  abbrev pub IsMade : Planner pl → Type 0
  IsMade p = IsSound p × ((length p.waypoints_lonlat ≡ 0) ⊎ IsListed p)

  abbrev pub IsReady : Planner pl → Type 0
  IsReady p = (IsSound p × (length p.waypoints_lonlat ≡ 0)) ⊎ IsListed p

  pub IsMade-IsReady : (p : Planner pl) → IsMade p → IsReady p
  IsMade-IsReady p (s, inl e) = inl (s, e)
  IsMade-IsReady p (s, inr l) = inr l

  waypoints_from-IsListed :
      (pts : List Point) (p : Planner pl) → IsListed p → IsListed (waypoints_from pl pts p)
  unfolding waypoints_from
  waypoints_from-IsListed [] p l = l
  waypoints_from-IsListed (pt ∷ []) p (l, m, n) = (l, m, m)
  waypoints_from-IsListed (first ∷ second ∷ pts) p l = l

  waypoints_from-none :
      (pts : List Point) (p : Planner pl)
      → length pts ≡ 0
      → IsMade p
      → IsMade (waypoints_from pl pts p)
  unfolding waypoints_from
  waypoints_from-none [] p e m = m
  waypoints_from-none (pt ∷ pts) p e m = absurd (omega (arith, e))

  pub update_waypoints-IsMade : (p : Planner pl) → IsReady p → IsMade (update_waypoints pl p)
  unfolding update_waypoints
  update_waypoints-IsMade p (inl (s, e)) =
      let pts = map (lon_lat_to_frame pl p) p.waypoints_lonlat in
      waypoints_from-none pts p (length-map (lon_lat_to_frame pl p) p.waypoints_lonlat ∙ e)
        (s, inl e)
  update_waypoints-IsMade p (inr l) =
      let pts = map (lon_lat_to_frame pl p) p.waypoints_lonlat in
      (
        waypoints_from-IsSound pts p (length-map (lon_lat_to_frame pl p) p.waypoints_lonlat) l,
        inr (waypoints_from-IsListed pts p l),
      )

  pub reset_ref-IsMade : (pt : Point) (p : Planner pl) → IsReady p → IsMade (reset_ref pl pt p)
  unfolding reset_ref update_obstacles
  reset_ref-IsMade pt p r = update_waypoints-IsMade _ r

  pub reset_ref-IsListed : (pt : Point) (p : Planner pl) → IsListed p → IsListed (reset_ref pl pt p)
  unfolding reset_ref update_obstacles update_waypoints
  reset_ref-IsListed pt p r = waypoints_from-IsListed _ _ r

  pub update_obstacles-IsMade : (p : Planner pl) → IsMade p → IsMade (update_obstacles pl p)
  unfolding update_obstacles
  update_obstacles-IsMade p m = m

  -- One waypoint that repeats, and nothing known of gates.
  abbrev pub IsSingle : Planner pl → Type 0
  IsSingle p = (length p.waypoints_lonlat ≡ 1) × (p.are_gates ≡ []) × (p.repeat_waypoints ≡ true)

  abbrev pub IsAlone : Planner pl → Type 0
  IsAlone p = IsSingle p × (length p.waypoints ≡ 1) × (p.next_waypoint ≡ 0)

  waypoints_from-IsAlone :
      (pts : List Point) (p : Planner pl)
      → length pts ≡ 1
      → IsSingle p
      → IsAlone (waypoints_from pl pts p)
  unfolding waypoints_from
  waypoints_from-IsAlone [] p e h = absurd (omega (arith, e))
  waypoints_from-IsAlone (pt ∷ []) p e h = (h, refl, refl)
  waypoints_from-IsAlone (pt ∷ qt ∷ pts) p e h = absurd (omega (arith, e))

  pub update_waypoints-IsAlone : (p : Planner pl) → IsSingle p → IsAlone (update_waypoints pl p)
  unfolding update_waypoints
  update_waypoints-IsAlone p h =
      waypoints_from-IsAlone _ p (length-map (lon_lat_to_frame pl p) p.waypoints_lonlat ∙ h.0) h

  pub reset_ref-IsAlone : (pt : Point) (p : Planner pl) → IsSingle p → IsAlone (reset_ref pl pt p)
  unfolding reset_ref update_obstacles
  reset_ref-IsAlone pt p h = update_waypoints-IsAlone _ h

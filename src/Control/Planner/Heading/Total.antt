-- ===== src/Control/Planner/Heading/Total.antt =====
-- `GetGoalHeading` and `Iterate` (control/line_plan.cc) fail no check, and read nothing out of range.
use boat.Prelude.{
  ℕ, zero, suc, ◌+◌, ◌%◌, ◌<◌, ◌≤◌, ◌≡◌, refl, inl, inr, true, List, [], ◌∷◌, ◌++◌, some, ◌==◌,
  length, get_elem?-in_range, Bool-cases, arith,
}
use native.Mathlib.Nat.{mod-lt}
use boat.Math.Polygon.{Plane}
use boat.Control.LinePlan.{Gate, heading_of}
use boat.Control.LinePlan.Optimize.{all_nonempty}
use boat.Control.LinePlan.FindPath.Total.{find_multiple_path-IsRoute}
use boat.Control.Planner.{Planner}
use boat.Control.Planner.Fenced.{IsInOrder}
use boat.Control.Planner.Heading.{
  Sent, heading_cmd, planner_points, end_at, query_for, with_points, is_line_plan, is_set_up,
  future_idx, leg_count, plan_for_gates, joined, planned_heading, get_goal_heading, iterate,
}

module _ (pl : Plane) where
  open pl use {floats, Point, minus}
  open floats use {F}

  plan_for_gates-total :
      (n ii : ℕ) (p : Planner pl)
      → 0 < length p.waypoints
      → (gates : List (Gate pl)) × (plan_for_gates pl n ii p ≡ some gates) × (length gates ≡ n)
  unfolding plan_for_gates
  plan_for_gates-total zero ii p h = ([], refl, refl)
  plan_for_gates-total (suc n) ii p h =
      let (gate, hg) =
        get_elem?-in_range p.waypoints ((p.next_waypoint + ii) % length p.waypoints)
          (mod-lt (p.next_waypoint + ii) h) in
      let (gates, e, l) = plan_for_gates-total n (ii + 1) p h in
      (gate ∷ gates, rw (hg, e), omega (arith, l))

  length-append_end :
      (pts : List Point) (end : Point) (path : List Point) → 0 < length (pts ++ end ∷ path)
  length-append_end [] end path = omega arith
  length-append_end (pt ∷ pts) end path = omega arith

  -- A path has two points at least.
  joined-total :
      (legs : List (List Point)) (alphas : List F) (gates : List (Gate pl))
      → all_nonempty pl legs ≡ true
      → length alphas ≡ length legs
      → length gates ≡ length legs
      → (path : List Point) × (joined pl legs alphas gates ≡ some path)
        × ((0 < length legs) → 2 ≤ length path)
  unfolding joined
  joined-total [] alphas gates h l m = ([], refl, λ k. absurd (omega (arith, k)))
  joined-total ([] ∷ legs) alphas gates h l m = absurd cc
  joined-total ((pt ∷ pts) ∷ legs) [] gates h l m = absurd (omega (arith, l))
  joined-total ((pt ∷ pts) ∷ legs) (alpha ∷ alphas) [] h l m = absurd (omega (arith, m))
  joined-total ((pt ∷ pts) ∷ legs) (alpha ∷ alphas) (gate ∷ gates) h l m =
      let (path, e, k) = joined-total legs alphas gates h (omega (arith, l)) (omega (arith, m)) in
      (
        pt ∷ pts ++ end_at pl alpha gate ∷ path,
        rw e,
        λ n. omega (arith, length-append_end pts (end_at pl alpha gate) path),
      )

  future_idx-in_range :
      (p : Planner pl) → 0 < length p.waypoints → future_idx pl p < length p.waypoints
  future_idx-in_range p h = elim (Bool-cases p.repeat_waypoints) [
    | inl e ↦ rw e (mod-lt (p.next_waypoint + 1) h)
    | inr e ↦ rw e (omega (arith, h))
  ]

  leg_count-positive : (p : Planner pl) → 0 < leg_count pl p
  leg_count-positive p = omega arith

  planned_heading-IsInOrder :
      (p : Planner pl)
      → 0 < length p.waypoints
      → IsInOrder pl p
      → (heading : F) × (p' : Planner pl) × (planned_heading pl p ≡ some (heading, p'))
        × IsInOrder pl p'
  unfolding planned_heading
  planned_heading-IsInOrder p h m =
      let (future, hf) =
        get_elem?-in_range p.waypoints (future_idx pl p) (future_idx-in_range p h) in
      let (gates, hg, n) = plan_for_gates-total (leg_count pl p) 0 p h in
      let some_legs = leg_count-positive p in
      let (best, hb, (lt', ne, f, t, la, _)) =
        find_multiple_path-IsRoute pl p.boat_pos (query_for pl p future gates) m.1.1
          (omega (arith, n, some_legs)) in
      let (path, hp, two) =
        joined-total best.tacks best.alphas gates ne (omega (arith, la, lt'))
          (omega (arith, lt')) in
      let long = two (omega (arith, lt', n, some_legs)) in
      let (p1, h1) = get_elem?-in_range path 1 long in
      let (p0, h0) = get_elem?-in_range path 0 (omega (arith, long)) in
      (
        heading_of pl (minus p1 p0),
        with_points pl p best.tacks path,
        rw (hf, hg, hb, hp, h1, h0),
        m,
      )

  pub get_goal_heading-IsInOrder :
      (p : Planner pl)
      → IsInOrder pl p
      → (heading : F) × (p' : Planner pl) × (get_goal_heading pl p ≡ some (heading, p'))
        × IsInOrder pl p'
  unfolding get_goal_heading
  get_goal_heading-IsInOrder p m = elim (Bool-cases (length p.waypoints == 0)) [
    | inl e ↦ (p.yaw, p, rw e, m)
    | inr e ↦
        let (heading, p', e', m') = planned_heading-IsInOrder p (ground (arith, e)) m in
        (heading, p', rw e e', m')
  ]

  pub iterate-IsInOrder :
      (p : Planner pl)
      → IsInOrder pl p
      → (p' : Planner pl) × (out : List (Sent pl)) × (iterate pl p ≡ some (p', out))
        × IsInOrder pl p'
  unfolding iterate
  iterate-IsInOrder p m = elim (Bool-cases (is_line_plan p.tack_mode)) [
    | inl e ↦ elim (Bool-cases (is_set_up pl p)) [
      | inl f ↦
          let (heading, p', h, m') = get_goal_heading-IsInOrder p m in
          (p', heading_cmd heading ∷ planner_points p'.pathpoints_msg ∷ [], rw (e, f, h), m')
      | inr f ↦ (p, [], rw (e, f), m)
    ]
    | inr e ↦ (record p { pathpoints_msg = [] }, planner_points [] ∷ [], rw e, m)
  ]

-- ===== src/Control/Planner/Walk/Steps.antt =====
-- `UpdateWaypointInc` (control/line_plan.cc) reads no index out of range, and goes from one waypoint to
-- the next.
use boat.Prelude.{
  ℕ, ◌+◌, ◌%◌, ◌<◌, ◌≡◌, ◌≢◌, refl, ap, ◌⊎◌, inl, inr, Bool, true, false, ◌&&◌, ◌||◌, List, [],
  none, some, ◌==◌, if◌then◌else◌, length, get_elem?, get_elem?-in_range, Bool-cases, arith,
}
use boat.Prelude.Int.{ℤ, pos, ◌-ℤ◌}
use native.Mathlib.Nat.{mod-lt}
use boat.Math.Polygon.{Plane}
use boat.Control.LinePlan.{Gate}
use boat.Control.Planner.{Planner, TackerState}
use boat.Control.Planner.Gates.{IsAlone, IsMade}
use boat.Control.Planner.Walk.{
  near_way, passed_line, crossed_line, at_last, walked, report_last, report_walked,
  update_waypoint_inc,
}

module _ (pl : Plane) where
  open pl use {floats, Point}
  open floats use {F}

  -- The boat is near the waypoint, or has come past its line.
  abbrev pub has_come : Planner pl → Gate pl → Bool → Bool
  has_come p gate is_gate =
      (passed_line pl p gate is_gate || near_way pl p gate)
      && (crossed_line pl p gate || near_way pl p gate)

  abbrev pub next_or_same : Planner pl → Gate pl → Bool → ℕ
  next_or_same p gate is_gate =
      if has_come p gate is_gate
      then (p.next_waypoint + 1) % length p.waypoints
      else p.next_waypoint

  -- The state after the step, with another count.
  abbrev moved_on : Planner pl → ℕ → ℤ → Planner pl
  moved_on p next count = record p { next_waypoint = next; crossed_cnt = count }

  walked-moved_on :
      (p : Planner pl) (gate : Gate pl) (is_gate : Bool)
      → (count : ℤ) × (walked pl p gate is_gate ≡ moved_on p (next_or_same p gate is_gate) count)
  unfolding walked
  walked-moved_on p gate is_gate =
      elim (Bool-cases (passed_line pl p gate is_gate || near_way pl p gate)) [
        | inl e ↦ elim (Bool-cases (crossed_line pl p gate || near_way pl p gate)) [
          | inl f ↦ (pos 0, rw (e, f))
          | inr f ↦ (p.crossed_cnt -ℤ pos 1, rw (e, f))
        ]
        | inr e ↦ (p.crossed_cnt, rw e)
      ]

  next_or_same-in_range :
      (p : Planner pl) (gate : Gate pl) (is_gate : Bool)
      → p.next_waypoint < length p.waypoints
      → next_or_same p gate is_gate < length p.waypoints
  next_or_same-in_range p gate is_gate h = elim (Bool-cases (has_come p gate is_gate)) [
    | inl e ↦ rw e (mod-lt (p.next_waypoint + 1) (omega (arith, h)))
    | inr e ↦ rw e h
  ]

  moved_on-IsMade :
      (p : Planner pl) (next : ℕ) (count : ℤ)
      → next < length p.waypoints
      → IsMade pl p
      → IsMade pl (moved_on p next count)
  moved_on-IsMade p next count h ((e, n, g), inl z) = absurd (omega (arith, e, z, h))
  moved_on-IsMade p next count h ((e, n, g), inr (l, k, _)) =
      ((e, inr h, g), inr (l, k, omega (arith, h, e)))

  none_here :
      (p : Planner pl) → IsMade pl p → length p.waypoints ≢ 0 → p.next_waypoint < length p.waypoints
  none_here p ((e, inl n, g), _) z = absurd (z n)
  none_here p ((e, inr n, g), _) z = n

  is_gate_here :
      (p : Planner pl)
      → IsMade pl p
      → p.next_waypoint < length p.waypoints
      → at_last pl p ≡ false
      → p.next_waypoint < length p.are_gates
  is_gate_here p ((e, n, inl g), _) h l = omega (arith, g, h)
  is_gate_here p ((e, n, inr (g, r)), _) h l = absurd (ground (arith, rw r at l, g, h))

  -- What the step makes of the waypoint: nothing where there is none, on the last one of a list that
  -- does not repeat only a report, and otherwise the next one, in a circle, once the boat has come.
  abbrev pub Walks : Planner pl → Planner pl → Type 0
  Walks p p' =
      ((length p.waypoints ≡ 0) × (p' ≡ p))
      ⊎ ((at_last pl p ≡ true) × (p'.next_waypoint ≡ p.next_waypoint))
      ⊎ ((at_last pl p ≡ false)
          × ((gate : Gate pl) × (is_gate : Bool) × (get_elem? p.waypoints p.next_waypoint
                ≡ some gate)
              × (get_elem? p.are_gates p.next_waypoint ≡ some is_gate)
              × (p'.next_waypoint ≡ next_or_same p gate is_gate)))

  -- Where the lists are in order the step reads no index out of range, leaves them so, and goes from a
  -- waypoint to the next one exactly when the boat is near it or has come past its line.
  pub update_waypoint_inc_lem :
      (p : Planner pl)
      → IsMade pl p
      → (p' : Planner pl) × (out : List TackerState) × (update_waypoint_inc pl p ≡ some (p', out))
        × IsMade pl p'
        × Walks p p'
  unfolding update_waypoint_inc
  update_waypoint_inc_lem p m = elim (Bool-cases (length p.waypoints == 0)) [
    | inl e ↦ (p, [], rw e, m, inl (ground (arith, e), refl))
    | inr e ↦
        let h = none_here p m (ground (arith, e)) in
        let (gate, hg) = get_elem?-in_range p.waypoints p.next_waypoint h in
        elim (Bool-cases (at_last pl p)) [
          | inl l ↦
              let (p', out) = report_last pl p gate in
              (p', out, rw (e, l, hg), m, inr (inl (l, refl)))
          | inr l ↦
              let (is_gate, hi) =
                get_elem?-in_range p.are_gates p.next_waypoint (is_gate_here p m h l) in
              let (count, w) = walked-moved_on p gate is_gate in
              let (p', out) = report_walked pl p gate is_gate in
              (
                p',
                out,
                rw (e, l, hg, hi),
                rw w (moved_on-IsMade p _ count (next_or_same-in_range p gate is_gate h) m),
                inr (inr (l, (gate, is_gate, hg, hi, ap (λ s. s.next_waypoint) w))),
              )
        ]
  ]

  -- With a single waypoint that repeats, and no place for it in `are_gates`, the step reads out of
  -- range.
  pub update_waypoint_inc-IsAlone :
      (p : Planner pl) → IsAlone pl p → update_waypoint_inc pl p ≡ none
  unfolding update_waypoint_inc
  update_waypoint_inc-IsAlone p ((_, g, r), n, z) =
      let (gate, hg) = get_elem?-in_range p.waypoints 0 (omega (arith, n)) in rw (n, r, z, hg, g)

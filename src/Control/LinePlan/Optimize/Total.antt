-- ===== src/Control/LinePlan/Optimize/Total.antt =====
-- `OptimizeMultipleTacks` (control/line_plan.cc) on legs that are not empty, with a gate and a place
-- for each: no check fails, no index is out of range, and the legs keep their lengths.
use boat.Prelude.{
  ℕ, zero, suc, ◌+◌, ◌-◌, ◌<◌, ◌≡◌, refl, ◌∙◌, ◌⊎◌, inl, inr, true, List, map, some, ◌==◌, ==_iff,
  length, get_elem?, get_elem?-in_range, set, length-set, All, All-set, arith, Bool-cases,
}
use boat.Math.Polygon.{Plane}
use boat.Control.LinePlan.{num, half, heading_of}
use boat.Control.LinePlan.Segments.{crossing}
use boat.Control.LinePlan.Obstacles.{AreSolid}
use boat.Control.LinePlan.BackPass.Keeps.{IsClipped, back_pass-IsMoved}
use boat.Control.LinePlan.Optimize.{
  Query, Plan, leg_start, point_after, optimize_leg, optimize_legs, optimize_rounds,
  optimize_multiple_tacks, all_nonempty, setting_of, after_leg, new_round, step_at,
}
use boat.Control.LinePlan.Optimize.Shape.{
  map-length-set, first_of, first_of-set, first_of-set_later, all_nonempty-get, all_nonempty-set,
}

module _ (pl : Plane) where
  open pl use {floats, Point}
  open floats use {F}

  -- The middle of a gate, or a clipped place on it.
  abbrev pub IsPlace : F → Type 0
  IsPlace a = (a ≡ half pl) ⊎ IsClipped pl a

  -- A plan made from the legs: their lengths and their first point, a place on every gate, and
  -- viable.
  abbrev pub Keeps : List (List Point) → Plan pl → Type 0
  Keeps tacks p =
      (map length p.tacks ≡ map length tacks)
      × (first_of p.tacks ≡ first_of tacks)
      × (all_nonempty pl p.tacks ≡ true)
      × (length p.tacks ≡ length tacks)
      × (length p.alphas ≡ length tacks)
      × All IsPlace p.alphas
      × (p.viable ≡ true)

  module _ (q : Query pl) (tacks : List (List Point)) (hq : length q.gates ≡ length tacks)
      (solid : AreSolid pl q.obstacles) where
    leg_start-total :
        (jj : ℕ) (p : Plan pl)
        → jj < length tacks
        → Keeps tacks p
        → (x : List Point) × (leg : List Point) × (yaw : F) × (get_elem? p.tacks jj ≡ some x)
          × (leg_start pl q jj p ≡ some (leg, yaw))
          × (length leg ≡ length x)
          × ((y : List Point)
              → get_elem? y 0 ≡ get_elem? leg 0
              → first_of (set p.tacks jj y) ≡ first_of p.tacks)
    unfolding leg_start
    leg_start-total zero p h (_, _, ne, ht, ha, _, _) =
        let (x, hx) = get_elem?-in_range p.tacks 0 (omega (arith, ht, h)) in
        (x, x, q.cur_yaw, hx, rw hx, refl, λ y k. first_of-set p.tacks 0 x y hx k)
    leg_start-total (suc i) p h (_, _, ne, ht, ha, _, _) =
        let (gate, hg) = get_elem?-in_range q.gates (suc i) (omega (arith, hq, h)) in
        let (alpha, hal) = get_elem?-in_range p.alphas i (omega (arith, ha, h)) in
        let (x, hx) = get_elem?-in_range p.tacks (suc i) (omega (arith, ht, h)) in
        let (before, hb) = get_elem?-in_range p.tacks i (omega (arith, ht, h)) in
        let (final, hf) =
          get_elem?-in_range before (length before - 1)
            (omega (arith, all_nonempty-get pl p.tacks i before ne hb)) in
        (
          x,
          set x 0 (crossing pl gate alpha),
          heading_of pl (pl.minus (crossing pl gate alpha) final),
          hx,
          rw (hg, hal, hx, hb, hf),
          length-set x 0 _,
          λ y k. first_of-set_later p.tacks i y,
        )

    point_after-total :
        (jj : ℕ) (p : Plan pl)
        → jj < length tacks
        → Keeps tacks p
        → (npt : Point) × (point_after pl q jj p ≡ some npt)
    unfolding point_after
    point_after-total jj p h (_, _, ne, ht, _, _, _) =
        elim (Bool-cases (jj + 1 == length p.tacks)) [
          | inl e ↦ (q.nextpt, rw e)
          | inr e ↦
              let (leg, hl) = get_elem?-in_range p.tacks (jj + 1) (ground (arith, ht, h, e)) in
              let (pt, hp) =
                get_elem?-in_range leg 0 (all_nonempty-get pl p.tacks (jj + 1) leg ne hl) in
              (pt, rw (e, hl) hp)
        ]

    pub optimize_leg-Keeps :
        (step : F) (jj : ℕ) (p : Plan pl)
        → jj < length tacks
        → Keeps tacks p
        → (p' : Plan pl) × (optimize_leg pl step q jj p ≡ some p') × Keeps tacks p'
    unfolding optimize_leg
    optimize_leg-Keeps step jj p h k =
        let (gate, hg) = get_elem?-in_range q.gates jj (omega (arith, hq, h)) in
        let (npt, hn) = point_after-total jj p h k in
        let (x, leg, yaw, hx, hl, len, first) = leg_start-total jj p h k in
        let (lens, fst, ne, ht, ha, places, v) = k in
        let (alpha, hal) = get_elem?-in_range p.alphas jj (omega (arith, ha, h)) in
        let some_points = all_nonempty-get pl p.tacks jj x ne hx in
        let (r, hr, moved, clipped) =
          back_pass-IsMoved pl (setting_of pl step q jj yaw) gate npt leg alpha solid
            (omega (arith, some_points, len)) in
        let (mlen, mfirst) = moved in
        (
          after_leg pl jj p r,
          rw (hg, hn, hl, hal, hr),
          (
            map-length-set p.tacks jj x r.points hx (mlen ∙ len) ∙ lens,
            first r.points mfirst ∙ fst,
            all_nonempty-set pl p.tacks jj r.points ne (omega (arith, mlen, len, some_points)),
            length-set p.tacks jj r.points ∙ ht,
            length-set p.alphas jj r.alpha ∙ ha,
            All-set IsPlace p.alphas jj r.alpha places (inr clipped),
            v,
          ),
        )

    pub optimize_legs-Keeps :
        (n : ℕ) (step : F) (jj : ℕ) (p : Plan pl)
        → jj + n ≡ length tacks
        → Keeps tacks p
        → (p' : Plan pl) × (optimize_legs pl n step q jj p ≡ some p') × Keeps tacks p'
    unfolding optimize_legs
    optimize_legs-Keeps zero step jj p h k = (p, refl, k)
    optimize_legs-Keeps (suc n) step jj p h k =
        let (p1, e1, k1) = optimize_leg-Keeps step jj p (omega (arith, h)) k in
        let (p2, e2, k2) = optimize_legs-Keeps n step (jj + 1) p1 (omega (arith, h)) k1 in
        (p2, rw e1 e2, k2)

    pub optimize_rounds-Keeps :
        (n ii : ℕ) (p : Plan pl)
        → Keeps tacks p
        → (p' : Plan pl) × (optimize_rounds pl n q ii p ≡ some p') × Keeps tacks p'
    unfolding optimize_rounds
    optimize_rounds-Keeps zero ii p k = (p, refl, k)
    optimize_rounds-Keeps (suc n) ii p (lens, fst, ne, ht, ha, places, v) =
        let (p1, e1, k1) =
          optimize_legs-Keeps (length p.tacks) (step_at pl ii) 0 (new_round pl p)
            (omega (arith, ht)) (lens, fst, ne, ht, ha, places, refl) in
        let (p2, e2, k2) = optimize_rounds-Keeps n (ii + 1) p1 k1 in (p2, rw e1 e2, k2)

    pub optimize_multiple_tacks-Keeps :
        (alphas : List F)
        → length alphas ≡ length tacks
        → All IsPlace alphas
        → all_nonempty pl tacks ≡ true
        → (p : Plan pl) × (optimize_multiple_tacks pl q tacks alphas ≡ some p) × Keeps tacks p
    unfolding optimize_multiple_tacks
    optimize_multiple_tacks-Keeps alphas ha places ne =
        let (p, e, k) =
          optimize_rounds-Keeps 50 0
            (record { tacks = tacks; alphas = alphas; finalcost = num pl 0; viable = true })
            (refl, refl, ne, refl, ha, places, refl) in
        (p, rw (ha, hq, ne, (==_iff (length tacks) (length tacks)).1 refl) e, k)

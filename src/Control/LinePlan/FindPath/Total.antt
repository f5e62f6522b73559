-- ===== src/Control/LinePlan/FindPath/Total.antt =====
-- `FindMultiplePath` and `FindPath` (control/line_plan.cc) return a plan, whatever the wind and the
-- obstacles are.
use boat.Prelude.{
  ℕ, zero, suc, ◌+◌, ◌-◌, ◌<◌, ◌≤◌, ◌≡◌, refl, ◌∙◌, ap, inl, true, ◌&&◌, List, [], ◌∷◌, some,
  length, length-replicate, get_elem?, get_elem?-in_range, replicate, All, All-get, Bool-cases, inr,
  arith,
}
use boat.Math.Polygon.{Plane}
use boat.Control.LinePlan.{Gate, half}
use boat.Control.LinePlan.Obstacles.{AreSolid}
use boat.Control.LinePlan.Optimize.{Query, Plan, all_nonempty}
use boat.Control.LinePlan.Optimize.Shape.{first_of}
use boat.Control.LinePlan.Optimize.Total.{IsPlace, optimize_multiple_tacks-Keeps}
use boat.Control.LinePlan.FindPath.{
  Hypothesis, Best, optimised, better, best_of, find_multiple_path, find_path, all_hypotheses,
  max_pts_per_leg, default_alphas,
}
use boat.Control.LinePlan.FindPath.Fit.{IsFit, total, sum}
use boat.Control.LinePlan.FindPath.Legs.{all_hypotheses-AreFit}

module _ (pl : Plane) where
  open pl use {floats, Point}
  open floats use {F, lt}

  -- A path for every leg, none empty, the first from the given point, with at most so many points, and
  -- a place on every gate.
  abbrev pub IsRoute : Point → ℕ → ℕ → List (List Point) → List F → Type 0
  IsRoute startpt legs limit tacks alphas =
      (length tacks ≡ legs)
      × (all_nonempty pl tacks ≡ true)
      × (first_of tacks ≡ some startpt)
      × (total pl tacks ≤ limit)
      × (length alphas ≡ legs)
      × All (IsPlace pl) alphas

  default_alphas-ArePlaces : (n : ℕ) → All (IsPlace pl) (replicate n (half pl))
  default_alphas-ArePlaces zero = tt
  default_alphas-ArePlaces (suc n) = (inl refl, default_alphas-ArePlaces n)

  module _ (startpt : Point) (limit : ℕ) (q : Query pl) (solid : AreSolid pl q.obstacles) where
    abbrev legs : ℕ
    legs = length q.gates

    -- An optimised hypothesis is a route, and viable.
    optimised-IsRoute :
        (h : Hypothesis pl)
        → IsFit pl startpt legs limit h
        → (p : Plan pl) × (optimised pl q h ≡ some p)
          × (p.viable ≡ true)
          × IsRoute startpt legs limit p.tacks p.alphas
    unfolding optimised
    optimised-IsRoute h (n, ne, t, l, f) =
        let alphas = length-replicate legs (half pl) in
        let (p, e, keeps) =
          optimize_multiple_tacks-Keeps pl q h.paths (omega (arith, n)) solid (default_alphas pl q)
            (omega (arith, alphas, n)) (default_alphas-ArePlaces legs) ne in
        let (lens, fst, ne', lt', la, places, v) = keeps in
        (p, e, v, (lt' ∙ n, ne', fst ∙ f, omega (arith, ap sum lens, t, l), la ∙ n, places))

    best_of-IsRoute :
        (hs : List (Hypothesis pl)) (b : Best pl)
        → All (IsFit pl startpt legs limit) hs
        → IsRoute startpt legs limit b.tacks b.alphas
        → (b' : Best pl) × (best_of pl q hs b ≡ some b')
          × IsRoute startpt legs limit b'.tacks b'.alphas
    unfolding best_of
    best_of-IsRoute [] b fit r = (b, refl, r)
    best_of-IsRoute (h ∷ hs) b (fit, fits) r =
        let (p, e, v, route) = optimised-IsRoute h fit in
        let step : IsRoute startpt legs limit (better pl b p).tacks (better pl b p).alphas =
          elim (Bool-cases (p.viable && lt p.finalcost b.lowest_cost)) [
            | inl c ↦ rw c route
            | inr c ↦ rw c r
          ] in
        let (b', e', r') = best_of-IsRoute hs (better pl b p) fits step in (b', rw e e', r')

  -- With gates to sail through, and obstacles that each have a vertex, there is always a plan: no check
  -- fails, and no vector is read out of its range. It has a path for every gate, none empty, and a place on every gate, either the middle
  -- or one that is clipped to the range from a tenth to one; it begins at `startpt`; and it has at most
  -- one point for each leg and six more.
  pub find_multiple_path-IsRoute :
      (startpt : Point) (q : Query pl)
      → AreSolid pl q.obstacles
      → 0 < length q.gates
      → let n = length q.gates in
        (best : Best pl) × (find_multiple_path pl startpt q ≡ some best)
        × IsRoute startpt n (max_pts_per_leg n + n - 1) best.tacks best.alphas
  unfolding find_multiple_path
  find_multiple_path-IsRoute startpt q solid h =
      let n = length q.gates in
      let limit = max_pts_per_leg n + n - 1 in
      let hs = all_hypotheses pl startpt q.gates q.winddir in
      let (fit, some_hs) = all_hypotheses-AreFit pl startpt q.gates q.winddir h in
      let (first, e) = get_elem?-in_range hs 0 some_hs in
      let (l, ne, t, m, f) = All-get (IsFit pl startpt n limit) hs 0 first fit e in
      let (best, e', route) =
        best_of-IsRoute startpt limit q solid hs
          (record { lowest_cost = pl.infinity; tacks = first.paths; alphas = default_alphas pl q })
          fit
          (
            l,
            ne,
            f,
            omega (arith, t, m),
            length-replicate n (half pl),
            default_alphas-ArePlaces n,
          ) in
      (best, rw e e', route)

  length-first :
      (xs : List (List Point)) (x : List Point) → get_elem? xs 0 ≡ some x → length x ≤ total pl xs
  length-first [] x e = absurd cc
  length-first (y ∷ xs) x e = ground arith

  -- `FindPath` returns one path among such obstacles, of at most six points, from the starting point.
  pub find_path-total :
      (startpt : Point) (q : Query pl) (gate : Gate pl)
      → AreSolid pl q.obstacles
      → (pts : List Point) × (alpha : F) × (find_path pl startpt q gate ≡ some (pts, alpha))
        × (get_elem? pts 0 ≡ some startpt)
        × (length pts ≤ 6)
  unfolding find_path
  find_path-total startpt q gate solid =
      let (best, e, (n, ne, f, t, la, _)) =
        find_multiple_path-IsRoute startpt (record q { gates = gate ∷ [] }) solid (omega arith) in
      let (alpha, ha) = get_elem?-in_range best.alphas 0 (omega (arith, la)) in
      let (pts, hp) = get_elem?-in_range best.tacks 0 (omega (arith, n)) in
      (pts, alpha, rw (e, ha, hp), rw hp at f, omega (arith, length-first best.tacks pts hp, t))

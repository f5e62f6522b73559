-- ===== src/Control/LinePlan/FindPath/Cheapest.antt =====
-- The plan that `FindMultiplePath` (control/line_plan.cc) takes is the cheapest.
use boat.Prelude.{
  ℕ, ap, ◌+◌, ◌-◌, ◌<◌, ◌≡◌, ◌⊎◌, inl, inr, true, false, List, [], ◌∷◌, some, length, get_elem?,
  get_elem?-in_range, All, Bool-cases, arith,
}
use boat.Prelude.Floats.{IsOrdered}
use boat.Math.Polygon.{Plane}
use boat.Control.LinePlan.Optimize.{Query, Plan}
use boat.Control.LinePlan.Optimize.Viable.{bind-some, optimize_multiple_tacks-IsViable}
use boat.Control.LinePlan.FindPath.{
  Hypothesis, Best, optimised, better, best_of, find_multiple_path, all_hypotheses, max_pts_per_leg,
  default_alphas,
}
use boat.Control.LinePlan.FindPath.Fit.{IsFit}
use boat.Control.LinePlan.FindPath.Legs.{all_hypotheses-AreFit}

module _ (pl : Plane) where
  open pl use {floats, Point, infinity}
  open floats use {F, lt}

  abbrev pub taken : Plan pl → Best pl
  taken p = record { lowest_cost = p.finalcost; tacks = p.tacks; alphas = p.alphas }

  -- The hypothesis can be optimised, and costs no less.
  abbrev pub IsNoCheaper : Query pl → F → Hypothesis pl → Type 0
  IsNoCheaper q cost h = (p : Plan pl) × (optimised pl q h ≡ some p) × (lt p.finalcost cost ≡ false)

  -- What is optimised from one of the hypotheses.
  abbrev pub IsOptimised : Query pl → Best pl → List (Hypothesis pl) → Type 0
  IsOptimised q b [] = ⊥
  IsOptimised q b (h ∷ hs) =
      ((p : Plan pl) × (optimised pl q h ≡ some p) × (b ≡ taken p)) ⊎ IsOptimised q b hs

  module _ (o : IsOrdered floats) (startpt : Point) (limit : ℕ) (q : Query pl) where
    lt_down :
        (c low low' : F)
        → (low' ≡ low) ⊎ (lt low' low ≡ true)
        → lt c low ≡ false
        → lt c low' ≡ false
    lt_down c low low' (inl e) h = cc
    lt_down c low low' (inr e) h = ground (arith, o.lt_trans c low' low)

    -- What the loop leaves: the best so far or a later one, at no more than the cost so far.
    abbrev Leaves : Best pl → List (Hypothesis pl) → Best pl → Type 0
    Leaves b hs b' =
        ((b' ≡ b) ⊎ ((lt b'.lowest_cost b.lowest_cost ≡ true) × IsOptimised q b' hs))
        × All (IsNoCheaper q b'.lowest_cost) hs

    first-taken :
        (h : Hypothesis pl) (hs : List (Hypothesis pl)) (p : Plan pl) (b b' : Best pl)
        → optimised pl q h ≡ some p
        → lt p.finalcost b.lowest_cost ≡ true
        → Leaves (taken p) hs b'
        → Leaves b (h ∷ hs) b'
    first-taken h hs p b b' hp c (inl e, rest) = (
      inr (rw (ap (λ t. t.lowest_cost) e) c, inl (p, hp, e)),
      ((p, hp, rw (ap (λ t. t.lowest_cost) e) (o.lt_irrefl p.finalcost)), rest),
    )
    first-taken h hs p b b' hp c (inr (l, opt), rest) = (
      inr (o.lt_trans b'.lowest_cost p.finalcost b.lowest_cost l c, inr opt),
      (
        (p, hp, lt_down p.finalcost p.finalcost b'.lowest_cost (inr l) (o.lt_irrefl p.finalcost)),
        rest,
      ),
    )

    first-kept :
        (h : Hypothesis pl) (hs : List (Hypothesis pl)) (p : Plan pl) (b b' : Best pl)
        → optimised pl q h ≡ some p
        → lt p.finalcost b.lowest_cost ≡ false
        → Leaves b hs b'
        → Leaves b (h ∷ hs) b'
    first-kept h hs p b b' hp c (inl e, rest) = (
      inl e,
      (
        (
          p,
          hp,
          lt_down p.finalcost b.lowest_cost b'.lowest_cost (inl (ap (λ t. t.lowest_cost) e)) c,
        ),
        rest,
      ),
    )
    first-kept h hs p b b' hp c (inr (l, opt), rest) = (
      inr (l, inr opt),
      ((p, hp, lt_down p.finalcost b.lowest_cost b'.lowest_cost (inr l) c), rest),
    )

    optimised-viable :
        (h : Hypothesis pl) (p : Plan pl) → optimised pl q h ≡ some p → p.viable ≡ true
    unfolding optimised
    optimised-viable h p e = optimize_multiple_tacks-IsViable pl q h.paths (default_alphas pl q) p e

    best_of-Leaves :
        (hs : List (Hypothesis pl)) (b b' : Best pl)
        → All (IsFit pl startpt (length q.gates) limit) hs
        → best_of pl q hs b ≡ some b'
        → Leaves b hs b'
    unfolding best_of
    best_of-Leaves [] b b' fit e = (inl cc, tt)
    best_of-Leaves (h ∷ hs) b b' (fit, fits) e =
        let (p, hp, _) =
          bind-some (optimised pl q h) (λ plan. best_of pl q hs (better pl b plan)) e in
        let v = optimised-viable h p hp in
        let e' : best_of pl q hs (better pl b p) ≡ some b' = rw hp at e in
        let rest = best_of-Leaves hs (better pl b p) b' fits e' in
        elim (Bool-cases (lt p.finalcost b.lowest_cost)) [
          | inl c ↦ first-taken h hs p b b' hp c (rw (v, c) at rest)
          | inr c ↦ first-kept h hs p b b' hp c (rw (v, c) at rest)
        ]

  -- The plan that is taken is the result for one of the hypotheses, with a cost that is less than
  -- infinity, or the first hypothesis as it was, and no hypothesis has a result that costs less. Here
  -- comparing costs is a strict order, which is never so for costs that are not numbers.
  pub find_multiple_path-cheapest :
      (o : IsOrdered floats) (startpt : Point) (q : Query pl) (best : Best pl)
      → 0 < length q.gates
      → find_multiple_path pl startpt q ≡ some best
      → let hs = all_hypotheses pl startpt q.gates q.winddir in
        (((lt best.lowest_cost infinity ≡ true) × IsOptimised q best hs)
          ⊎ ((first : Hypothesis pl) × (get_elem? hs 0 ≡ some first)
              × (best ≡ record {
                lowest_cost = infinity;
                tacks = first.paths;
                alphas = default_alphas pl q;
              })))
        × All (IsNoCheaper q best.lowest_cost) hs
  unfolding find_multiple_path
  find_multiple_path-cheapest o startpt q best h e =
      let n = length q.gates in
      let limit = max_pts_per_leg n + n - 1 in
      let hs = all_hypotheses pl startpt q.gates q.winddir in
      let (fit, some_hs) = all_hypotheses-AreFit pl startpt q.gates q.winddir h in
      let (first, e0) = get_elem?-in_range hs 0 some_hs in
      let e1 = rw e0 at e in
      let (from, rest) = best_of-Leaves o startpt limit q hs _ best fit e1 in
      elim from [ inl same ↦ (inr (first, e0, same), rest) | inr (l, opt) ↦ (inl (l, opt), rest) ]

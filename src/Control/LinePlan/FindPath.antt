-- ===== src/Control/LinePlan/FindPath.antt =====
-- `FindMultiplePath` and `FindPath` of control/line_plan.cc: every hypothesis for the legs together is
-- optimised, and the cheapest is taken.
pub mod Fit
pub mod Legs
pub mod Total
pub mod Cheapest
use boat.Prelude.{
  ℕ, zero, suc, ◌+◌, ◌-◌, max, Bool, true, false, ◌&&◌, List, [], ◌∷◌, ◌++◌, map, Option, none,
  some, leb, if◌then◌else◌, length, get_elem?, take, replicate, ◌>>=◌,
}
use boat.Math.Polygon.{Plane}
use boat.Control.LinePlan.{Gate, half}
use boat.Control.LinePlan.Optimize.{Query, Plan, optimize_multiple_tacks}
use boat.Control.LinePlan.Hypotheses.{generate_hypotheses}

abbrev pub max_pts_per_leg : ℕ → ℕ
max_pts_per_leg nlegs = max 1 (6 + 1 - nlegs)

module _ (pl : Plane) where
  open pl use {floats, Point, plus, times, infinity}
  open floats use {F, lt}

  -- An element of `hypotheses` and its place in `hypothesis_lengths`: a path for each leg, and the
  -- points in all.
  pub record Hypothesis : Type 0 where
    pub paths : List (List Point)
    pub points : ℕ

  abbrev pub middle : Gate pl → Point
  middle gate = times (half pl) (plus gate.0 gate.1)

  abbrev pub fits : ℕ → List Point → Hypothesis → Bool
  fits limit hypo h = leb (h.points + length hypo) limit

  abbrev pub grown : Hypothesis → List (List Point) → List Point → Hypothesis
  grown h paths hypo = record { paths = paths ++ hypo ∷ []; points = h.points + length hypo }

  -- The first new hypothesis goes to the end of an old one, in place.
  pub extend : ℕ → List Point → Hypothesis → Hypothesis
  extend limit hypo h = if fits limit hypo h then grown h h.paths hypo else h

  -- A further one goes to a copy of what the old one has become, less its last path.
  pub branch : ℕ → List Point → List Point → List Hypothesis → List Hypothesis
  unfolding extend
  branch limit first hypo [] = []
  branch limit first hypo (h ∷ hs) =
      let changed = extend limit first h in
      let rest = branch limit first hypo hs in
      if fits limit hypo h
      then grown h (take (length changed.paths - 1) changed.paths) hypo ∷ rest
      else rest

  pub branches : ℕ → List Point → List (List Point) → List Hypothesis → List Hypothesis
  unfolding branch
  branches limit first [] hs = []
  branches limit first (hypo ∷ hypos) hs =
      branch limit first hypo hs ++ branches limit first hypos hs

  -- The hypotheses with one leg more.
  pub add_leg : ℕ → List (List Point) → List Hypothesis → List Hypothesis
  unfolding extend branches
  add_leg limit hypos [] = map (λ hypo. record { paths = hypo ∷ []; points = length hypo }) hypos
  add_leg limit [] (h ∷ hs) = h ∷ hs
  add_leg limit (first ∷ hypos) (h ∷ hs) =
      map (extend limit first) (h ∷ hs) ++ branches limit first hypos (h ∷ hs)

  -- The paths for one leg, for every number of points below the given one.
  pub leg_hypotheses : Point → Point → F → ℕ → List (List Point)
  leg_hypotheses legstart endpt winddir zero = []
  leg_hypotheses legstart endpt winddir (suc jj) =
      generate_hypotheses pl legstart endpt winddir jj (leg_hypotheses legstart endpt winddir jj)
        false

  -- The loop over the legs: `limit` is for the first that is left, `most` for a path.
  pub legs_from : ℕ → ℕ → F → Point → List (Gate pl) → List Hypothesis → List Hypothesis
  unfolding add_leg leg_hypotheses
  legs_from most limit winddir legstart [] hs = hs
  legs_from most limit winddir legstart (gate ∷ gates) hs =
      let hypos = leg_hypotheses legstart (middle gate) winddir most in
      legs_from most (limit + 1) winddir (middle gate) gates (add_leg limit hypos hs)

  pub all_hypotheses : Point → List (Gate pl) → F → List Hypothesis
  unfolding legs_from
  all_hypotheses startpt gates winddir =
      let most = max_pts_per_leg (length gates) in legs_from most most winddir startpt gates []

  -- The lowest cost so far, with its paths and places on the gates.
  pub record Best : Type 0 where
    pub lowest_cost : F
    pub tacks : List (List Point)
    pub alphas : List F

  abbrev pub default_alphas : Query pl → List F
  default_alphas q = replicate (length q.gates) (half pl)

  pub optimised : Query pl → Hypothesis → Option (Plan pl)
  optimised q h = optimize_multiple_tacks pl q h.paths (default_alphas q)

  abbrev pub better : Best → Plan pl → Best
  better best plan =
      if plan.viable && lt plan.finalcost best.lowest_cost
      then record { lowest_cost = plan.finalcost; tacks = plan.tacks; alphas = plan.alphas }
      else best

  pub best_of : Query pl → List Hypothesis → Best → Option Best
  unfolding optimised
  best_of q [] best = some best
  best_of q (h ∷ hs) best = optimised q h >>= λ plan. best_of q hs (better best plan)

  -- The first hypothesis stands for no plan. `none` is a failed check, or a first element of an empty
  -- vector.
  pub find_multiple_path : Point → Query pl → Option Best
  unfolding all_hypotheses best_of
  find_multiple_path startpt q = do
    let hypotheses = all_hypotheses startpt q.gates q.winddir
    first ← get_elem? hypotheses 0
    best_of q hypotheses
        (record { lowest_cost = infinity; tacks = first.paths; alphas = default_alphas q })

  -- For one gate: the points and the place on the gate.
  pub find_path : Point → Query pl → Gate pl → Option (List Point × F)
  unfolding find_multiple_path
  find_path startpt q gate = do
    best ← find_multiple_path startpt (record q { gates = gate ∷ [] })
    alpha ← get_elem? best.alphas 0
    tackpts ← get_elem? best.tacks 0
    some (tackpts, alpha)

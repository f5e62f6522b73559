-- ===== src/Control/LinePlan/Optimize.antt =====
-- `OptimizeMultipleTacks` and `OptimizeTacks` of control/line_plan.cc: fifty rounds of a pass over
-- every leg. `none` is a failed check or an index out of range.
pub mod Shape
pub mod Total
pub mod Viable
use boat.Prelude.{
  ℕ, zero, suc, ◌+◌, ◌-◌, Bool, true, false, ◌&&◌, List, [], ◌∷◌, Option, none, some, ltb, ◌==◌,
  if◌then◌else◌, length, get_elem?, set, ◌>>=◌,
}
use boat.Prelude.Int.{ℤ, pos, negsuc}
use boat.Math.Polygon.{Plane}
use boat.Control.LinePlan.{Gate, num, heading_of}
use boat.Control.LinePlan.Segments.{crossing}
use boat.Control.LinePlan.BackPass.{Setting, Passed, back_pass}

-- The test `jj == -1` of the leg that is held to what can be sailed.
abbrev pub is_enforced : ℤ → Bool
is_enforced (pos n) = false
is_enforced (negsuc n) = n == 0

module _ (pl : Plane) where
  open pl use {floats, Point, minus}
  open floats use {F, add, literal}

  -- A plan with its cost and whether it is viable.
  pub record Plan : Type 0 where
    pub tacks : List (List Point)
    pub alphas : List F
    pub finalcost : F
    pub viable : Bool

  -- What a search is given and does not change.
  pub record Query : Type 0 where
    pub gates : List (Gate pl)
    pub nextpt : Point
    pub winddir : F
    pub obstacles : List (List Point)
    pub cur_yaw : F

  abbrev pub last_of : List Point → Option Point
  last_of pts = get_elem? pts (length pts - 1)

  -- A leg after the first starts where the one before crosses the gate. Returned are its points and
  -- the heading into it.
  pub leg_start : Query → ℕ → Plan → Option (List Point × F)
  leg_start q zero p = do leg ← get_elem? p.tacks 0; some (leg, q.cur_yaw)
  leg_start q (suc i) p = do
    gate ← get_elem? q.gates (suc i)
    alpha ← get_elem? p.alphas i
    leg ← get_elem? p.tacks (suc i)
    before ← get_elem? p.tacks i
    final ← last_of before
    let first = crossing pl gate alpha
    some (set leg 0 first, heading_of pl (minus first final))

  -- The point that the leg goes on to.
  pub point_after : Query → ℕ → Plan → Option Point
  point_after q jj p =
      if jj + 1 == length p.tacks
      then some q.nextpt
      else do leg ← get_elem? p.tacks (jj + 1); get_elem? leg 0

  abbrev pub setting_of : F → Query → ℕ → F → Setting pl
  setting_of step q jj cyaw = record {
    winddir = q.winddir;
    obstacles = q.obstacles;
    cur_yaw = cyaw;
    step = step;
    prescale = jj == 0;
  }

  abbrev pub after_leg : ℕ → Plan → Passed pl → Plan
  after_leg jj p passed = record {
    tacks = set p.tacks jj passed.points;
    alphas = set p.alphas jj passed.alpha;
    finalcost = add p.finalcost passed.cost;
    viable = if is_enforced (pos jj) then p.viable && passed.viable else p.viable;
  }

  pub optimize_leg : F → Query → ℕ → Plan → Option Plan
  unfolding leg_start point_after
  optimize_leg step q jj p = do
    gate ← get_elem? q.gates jj
    npt ← point_after q jj p
    (leg, cyaw) ← leg_start q jj p
    alpha ← get_elem? p.alphas jj
    passed ← back_pass pl (setting_of step q jj cyaw) gate npt leg alpha
    some (after_leg jj p passed)

  -- The legs that are left, from the given one on.
  pub optimize_legs : ℕ → F → Query → ℕ → Plan → Option Plan
  unfolding optimize_leg
  optimize_legs zero step q jj p = some p
  optimize_legs (suc n) step q jj p = optimize_leg step q jj p >>= optimize_legs n step q (jj + 1)

  abbrev pub step_at : ℕ → F
  step_at ii = if ltb 20 ii then literal 3 1000 else literal 1 100

  abbrev pub new_round : Plan → Plan
  new_round p = record p { finalcost = num pl 0; viable = true }

  -- The rounds that are left.
  pub optimize_rounds : ℕ → Query → ℕ → Plan → Option Plan
  unfolding optimize_legs
  optimize_rounds zero q ii p = some p
  optimize_rounds (suc n) q ii p =
      optimize_legs (length p.tacks) (step_at ii) q 0 (new_round p) >>= optimize_rounds n q (ii + 1)

  abbrev pub all_nonempty : List (List Point) → Bool
  all_nonempty [] = true
  all_nonempty ([] ∷ legs) = false
  all_nonempty ((p ∷ pts) ∷ legs) = all_nonempty legs

  pub optimize_multiple_tacks : Query → List (List Point) → List F → Option Plan
  unfolding optimize_rounds
  optimize_multiple_tacks q tacks alphas =
      if length tacks == length alphas && length tacks == length q.gates && all_nonempty tacks
      then optimize_rounds 50 q 0
          (record { tacks = tacks; alphas = alphas; finalcost = num pl 0; viable = true })
      else none

  -- The points of the one leg, its place on the gate, the cost, and whether it is viable.
  pub optimize_tacks : Query → List Point → F → Option (List Point × F × F × Bool)
  unfolding optimize_multiple_tacks
  optimize_tacks q tackpts alpha = do
    plan ← optimize_multiple_tacks q (tackpts ∷ []) (alpha ∷ [])
    leg ← get_elem? plan.tacks 0
    alpha' ← get_elem? plan.alphas 0
    some (leg, alpha', plan.finalcost, plan.viable)

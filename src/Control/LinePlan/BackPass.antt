-- ===== src/Control/LinePlan/BackPass.antt =====
-- `BackPass` of control/line_plan.cc: one pass of gradient descent over a leg, from the gate back to
-- the second point.
pub mod Keeps
use boat.Prelude.{
  ℕ, zero, suc, ◌-◌, Bool, true, ◌&&◌, List, [], ◌∷◌, Option, none, some, if◌then◌else◌, length,
  get_elem?, set, ◌>>=◌,
}
use boat.Prelude.Floats.{Floats, clip}
use boat.Math.Polygon.{Plane}
use boat.Control.LinePlan.{Gate, num, heading_of}
use boat.Control.LinePlan.Segments.{crossing, single_line_cost_among, line_pair_cost_among}

module _ (pl : Plane) where
  open pl use {floats, Point, minus, times}
  open floats use {F, add, sub, mul, literal}

  -- What a pass has made of a leg: the points, the place on the gate, the cost, and whether it can be
  -- sailed.
  pub record Passed : Type 0 where
    pub points : List Point
    pub alpha : F
    pub cost : F
    pub viable : Bool

  -- What a pass is given and does not change.
  pub record Setting : Type 0 where
    pub winddir : F
    pub obstacles : List (List Point)
    pub cur_yaw : F
    pub step : F
    pub prescale : Bool

  -- The heading into the point at `i`.
  pub heading_into : F → List Point → ℕ → Option F
  heading_into cur_yaw pts zero = some cur_yaw
  heading_into cur_yaw pts (suc i) = do
    pt ← get_elem? pts (suc i)
    before ← get_elem? pts i
    some (heading_of pl (minus pt before))

  abbrev pub scale_pre : Bool → ℕ → F
  scale_pre prescale zero = if prescale then num pl 200 else num pl 1
  scale_pre prescale (suc i) = num pl 1

  -- The loop over the points from the given one down to the second, with the point that comes after
  -- it. The moved point is the one that the next round sees.
  pub improve_points : Setting → ℕ → Point → F → Passed → Option Passed
  unfolding line_pair_cost_among heading_into
  improve_points s zero postpt postheading p = some p
  improve_points s (suc i) postpt postheading p = do
    prept ← get_elem? p.points i
    curpt ← get_elem? p.points (suc i)
    preheading ← heading_into s.cur_yaw p.points i
    (cost, dcostdpt, lineviable) ←
        line_pair_cost_among pl s.obstacles prept postpt curpt preheading postheading s.winddir
          (scale_pre s.prescale i)
    let moved = minus curpt (times s.step dcostdpt)
    improve_points s i moved (heading_of pl (minus postpt moved)) (record p {
      points = set p.points (suc i) moved;
      cost = add p.cost cost;
      viable = p.viable && lineviable;
    })

  -- The first of the two steps, which moves the place on the gate.
  pub improve_alpha : Setting → Gate pl → Point → List Point → F → Option Passed
  unfolding single_line_cost_among heading_into
  improve_alpha s gate nextpt pts alpha = do
    penultimate_heading ← heading_into s.cur_yaw pts (length pts - 1)
    lastpt ← get_elem? pts (length pts - 1)
    (cost, dcostdalpha, lineviable) ←
        single_line_cost_among pl s.obstacles gate lastpt alpha penultimate_heading nextpt s.winddir
    some (record {
      points = pts;
      alpha = clip floats (sub alpha (mul s.step dcostdalpha)) (literal 1 10) (num pl 1);
      cost = add (num pl 0) cost;
      viable = true && lineviable;
    })

  -- A leg without a point is a failed check, and `none` an index out of range too.
  pub back_pass : Setting → Gate pl → Point → List Point → F → Option Passed
  unfolding improve_alpha improve_points
  back_pass s gate nextpt [] alpha = none
  back_pass s gate nextpt (pt ∷ pts) alpha = do
    p ← improve_alpha s gate nextpt (pt ∷ pts) alpha
    let postpt = crossing pl gate p.alpha
    lastpt ← get_elem? (pt ∷ pts) (length pts)
    improve_points s (length pts) postpt (heading_of pl (minus postpt lastpt)) p

-- ===== src/Control/LinePlan/BackPass/Keeps.antt =====
-- What `BackPass` (control/line_plan.cc) leaves alone: the number of the points and the first of them.
use boat.Prelude.{
  ℕ, zero, suc, ◌-◌, ◌<◌, ◌≡◌, refl, sym, subst, true, ◌&&◌, List, [], ◌∷◌, some, length, get_elem?,
  get_elem?-in_range, set, length-set, arith,
}
use boat.Prelude.Floats.{clip}
use boat.Math.Polygon.{Plane}
use boat.Control.LinePlan.{Gate, num, heading_of}
use boat.Control.LinePlan.Segments.{crossing}
use boat.Control.LinePlan.Obstacles.{
  AreSolid, IsTotal, bind-IsTotal, single_line_cost_among-IsTotal, line_pair_cost_among-IsTotal,
}
use boat.Control.LinePlan.BackPass.{
  Setting, Passed, heading_into, scale_pre, improve_points, improve_alpha, back_pass,
}

module _ (pl : Plane) where
  open pl use {floats, Point, minus, times}
  open floats use {F, add, sub, mul, literal}

  -- A place on a gate that a pass may leave.
  pub IsClipped : F → Type 0
  IsClipped alpha = (a : F) × (alpha ≡ clip floats a (literal 1 10) (num pl 1))

  -- The same number of points, and the same first one.
  abbrev pub IsMoved : List Point → List Point → Type 0
  IsMoved pts pts' = (length pts' ≡ length pts) × (get_elem? pts' 0 ≡ get_elem? pts 0)

  set-IsMoved :
      (pts qts : List Point) (i : ℕ) (v : Point) → IsMoved pts qts → IsMoved pts (set qts (suc i) v)
  set-IsMoved pts [] i v h = h
  set-IsMoved pts (q ∷ qts) i v (h, k) = (omega (arith, length-set qts i v), k)

  heading_into-IsTotal :
      (cur_yaw : F) (pts : List Point) (i : ℕ)
      → i < length pts
      → IsTotal (heading_into pl cur_yaw pts i)
  unfolding heading_into
  heading_into-IsTotal cur_yaw pts zero h = (cur_yaw, refl)
  heading_into-IsTotal cur_yaw pts (suc i) h =
      bind-IsTotal (get_elem?-in_range pts (suc i) h)
        (λ pt. bind-IsTotal (get_elem?-in_range pts i (omega (arith, h))) (λ before. (_, refl)))

  improve_points-IsMoved :
      (s : Setting pl) (n : ℕ) (postpt : Point) (postheading : F) (p : Passed pl) (pts : List Point)
      → AreSolid pl s.obstacles
      → n < length pts
      → IsMoved pts p.points
      → (p' : Passed pl) × (improve_points pl s n postpt postheading p ≡ some p')
        × IsMoved pts p'.points
        × (p'.alpha ≡ p.alpha)
  unfolding improve_points
  improve_points-IsMoved s zero postpt postheading p pts solid l h = (p, refl, h, refl)
  improve_points-IsMoved s (suc i) postpt postheading p pts solid l h =
      let (prept, e0) = get_elem?-in_range p.points i (omega (arith, h.0, l)) in
      let (curpt, e1) = get_elem?-in_range p.points (suc i) (omega (arith, h.0, l)) in
      let (preheading, e2) = heading_into-IsTotal s.cur_yaw p.points i (omega (arith, h.0, l)) in
      let (c, e3) =
        line_pair_cost_among-IsTotal pl s.obstacles prept postpt curpt preheading postheading
          s.winddir (scale_pre pl s.prescale i) solid in
      let moved = minus curpt (times s.step c.1) in
      let (p', e, m, a) =
        improve_points-IsMoved s i moved (heading_of pl (minus postpt moved))
          (record p {
            points = set p.points (suc i) moved;
            cost = add p.cost c.0;
            viable = p.viable && c.2;
          })
          pts solid (omega (arith, l)) (set-IsMoved pts p.points i moved h) in
      (p', rw (e0, e1, e2, e3) e, m, a)

  improve_alpha-IsTotal :
      (s : Setting pl) (gate : Gate pl) (nextpt : Point) (pts : List Point) (alpha : F)
      → AreSolid pl s.obstacles
      → 0 < length pts
      → (p : Passed pl) × (improve_alpha pl s gate nextpt pts alpha ≡ some p)
        × (p.points ≡ pts)
        × IsClipped p.alpha
  unfolding improve_alpha IsClipped
  improve_alpha-IsTotal s gate nextpt pts alpha solid h =
      let last = length pts - 1 in
      let (heading, e0) = heading_into-IsTotal s.cur_yaw pts last (omega (arith, h)) in
      let (lastpt, e1) = get_elem?-in_range pts last (omega (arith, h)) in
      let (c, e2) =
        single_line_cost_among-IsTotal pl s.obstacles gate lastpt alpha heading nextpt s.winddir
          solid in
      (
        record {
          points = pts;
          alpha = clip floats (sub alpha (mul s.step c.1)) (literal 1 10) (num pl 1);
          cost = add (num pl 0) c.0;
          viable = true && c.2;
        },
        rw (e0, e1, e2) refl,
        refl,
        (sub alpha (mul s.step c.1), refl),
      )

  pub back_pass-IsMoved :
      (s : Setting pl) (gate : Gate pl) (nextpt : Point) (pts : List Point) (alpha : F)
      → AreSolid pl s.obstacles
      → 0 < length pts
      → (p : Passed pl) × (back_pass pl s gate nextpt pts alpha ≡ some p)
        × IsMoved pts p.points
        × IsClipped p.alpha
  unfolding back_pass
  back_pass-IsMoved s gate nextpt [] alpha solid h = absurd (omega arith)
  back_pass-IsMoved s gate nextpt (pt ∷ pts) alpha solid h =
      let (p, e, same, clipped) = improve_alpha-IsTotal s gate nextpt (pt ∷ pts) alpha solid h in
      let (lastpt, e1) = get_elem?-in_range (pt ∷ pts) (length pts) (omega arith) in
      let postpt = crossing pl gate p.alpha in
      let (p', e2, m, a) =
        improve_points-IsMoved s (length pts) postpt (heading_of pl (minus postpt lastpt)) p
          (pt ∷ pts) solid (omega arith) (subst (IsMoved (pt ∷ pts)) (sym same) (refl, refl)) in
      (p', rw (e, e1) e2, m, subst IsClipped (sym a) clipped)

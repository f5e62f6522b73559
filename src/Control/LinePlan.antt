-- ===== src/Control/LinePlan.antt =====
-- `LinePlan` of control/line_plan.h and control/line_plan.cc: the words that its parts share, and the
-- costs of a turn, of a straight line, of crossing the finish and of obstacles.
pub mod Segments
pub mod Obstacles
pub mod BackPass
pub mod Optimize
pub mod Hypotheses
pub mod FindPath
use boat.Prelude.{
  ℕ, zero, suc, ◌-◌, Bool, true, false, not, ◌&&◌, ◌||◌, List, [], ◌∷◌, if◌then◌else◌, Option, none,
  some, ◌>>=◌,
}
use boat.Prelude.Int.{ℤ, pos}
use boat.Prelude.Floats.{Floats, fmax, clip}
use boat.Math.Polygon.{Plane, dist_to_point}
use boat.Control.Util.{norm_angle, sign}

module _ (pl : Plane) where
  open pl use {floats, Point, point, x, y, plus, minus, times, norm}
  open floats use {
    F, add, sub, mul, div, neg, lt, le, narrow, of_int, literal, pi, abs, sqrt, exp, atan2,
  }

  -- The two ends of a gate.
  abbrev pub Gate : Type 0
  Gate = Point × Point

  abbrev pub num : ℕ → F
  num n = literal n 1

  abbrev pub half : F
  half = literal 1 2

  abbrev pub equal : F → F → Bool
  equal a b = le a b && le b a

  abbrev pub is_nan : F → Bool
  is_nan a = not (le a a)

  abbrev pub heading_of : Point → F
  heading_of v = atan2 (y v) (x v)

  abbrev pub origin : Point
  origin = point (num 0) (num 0)

  abbrev tack_cost : F
  tack_cost = num 5

  abbrev turn_weight : F
  turn_weight = narrow (literal 3 10)

  abbrev length_cost : F
  length_cost = num 1

  abbrev sailable_reach : F
  sailable_reach = narrow (div pi (num 6))

  abbrev max_upwindness : F
  max_upwindness = literal 9 10

  -- The cost and its derivatives by the two headings, with every angle turned so that the boat starts
  -- at zero and turns to the positive side.
  pub turn_cost_by : F → F → F → F → F × F × F
  turn_cost_by endnorm plusnogo negnogo side =
      let two = mul (num 2) turn_weight in
      let minus_two = mul (neg (num 2)) turn_weight in
      if (lt plusnogo (num 0) && lt negnogo (num 0)) || lt endnorm negnogo
      then (
        mul (mul turn_weight endnorm) endnorm,
        mul (mul minus_two side) endnorm,
        mul (mul two side) endnorm,
      )
      else let clipstart = lt negnogo (num 0) in
        let startnogo = if clipstart then num 0 else negnogo in
        let clipend = lt endnorm plusnogo || lt plusnogo (num 0) in
        let endnogo = if clipend then endnorm else plusnogo in
        let nogodist = sub endnogo startnogo in
        let costbase = add endnorm (mul (sub tack_cost (num 1)) nogodist) in
        (
          mul (mul turn_weight costbase) costbase,
          mul (mul (mul minus_two side) (if clipstart then tack_cost else num 1)) costbase,
          mul (mul (mul two side) (if clipend then tack_cost else num 1)) costbase,
        )

  pub turn_cost : F → F → F → F × F × F
  unfolding turn_cost_by
  turn_cost startheading endheading winddir =
      let nogosize = div pi (num 4) in
      let plusabs = norm_angle floats (add (add pi winddir) nogosize) in
      let negabs = norm_angle floats (sub (add pi winddir) nogosize) in
      let endnorm = norm_angle floats (sub endheading startheading) in
      let plusnogo = norm_angle floats (sub plusabs startheading) in
      let negnogo = norm_angle floats (sub negabs startheading) in
      let flip = λ (a : F). mul a (neg (num 1)) in
      if lt endnorm (num 0)
      then turn_cost_by (flip endnorm) (flip negnogo) (flip plusnogo) (neg (num 1))
      else turn_cost_by endnorm plusnogo negnogo (num 1)

  -- The cost, its derivatives by the length and by the heading, and whether the heading can be
  -- sailed.
  pub straight_line_cost : F → F → F → Bool → F × F × F × Bool
  straight_line_cost len heading winddir is_real =
      let headingnorm = norm_angle floats (sub (add winddir pi) heading) in
      let steep = abs headingnorm in
      let up = if is_real then num 300 else num 0 in
      let upwindness = clip floats steep (num 0) max_upwindness in
      let upwindexp = exp (mul (num 10) (sub upwindness (div pi (num 6)))) in
      let dupwindexp = mul (mul (neg (num 10)) upwindexp) (of_int (sign floats headingnorm)) in
      let upwindscalar = div up (add (num 1) upwindexp) in
      let dupwindscalar = mul (div (neg upwindscalar) (add (num 1) upwindexp)) dupwindexp in
      (
        mul (mul upwindscalar length_cost) len,
        mul upwindscalar length_cost,
        if equal upwindness max_upwindness || equal upwindness (num 0)
            then num 0
            else mul (mul length_cost len) dupwindscalar,
        lt sailable_reach steep,
      )

  pub cross_finish_cost : F → F × F
  cross_finish_cost a =
      let alpha = fmax floats (literal 1 10) a in
      let base_cost = div (mul (num 5) (exp alpha)) (sqrt alpha) in
      (base_cost, mul base_cost (sub (num 1) (div half alpha)))

  -- What the obstacles add at one point of the line. `none` is a vertex that is out of range.
  pub obstacles_at : List (List Point) → Point → F → F → Option F
  obstacles_at [] evalpt dx cost = some cost
  obstacles_at (polygon ∷ polygons) evalpt dx cost = do
    dist ← dist_to_point pl polygon evalpt
    let diff = div (fmax floats (num 0) (sub (num 10) dist)) (num 10)
    obstacles_at polygons evalpt dx (add cost (mul (mul (mul (num 100) diff) diff) dx))

  -- The rounds that are left of the ten.
  pub obstacles_along : ℕ → Point → Point → List (List Point) → F → F → Option F
  unfolding obstacles_at
  obstacles_along zero start end obstacles dx cost = some cost
  obstacles_along (suc k) start end obstacles dx cost =
      let alpha = div (add (of_int (pos (9 - k))) half) (num 10) in
      let evalpt = plus start (times alpha (minus end start)) in
      obstacles_at obstacles evalpt dx cost >>= obstacles_along k start end obstacles dx

  pub obstacle_cost_only : Point → Point → List (List Point) → Option F
  unfolding obstacles_along
  obstacle_cost_only start end obstacles =
      obstacles_along 10 start end obstacles (div (norm (minus start end)) (num 10)) (num 0)

  -- The cost, and its derivative by the start.
  pub obstacle_cost : Point → Point → List (List Point) → Option (F × Point)
  unfolding obstacle_cost_only
  obstacle_cost start end obstacles =
      let eps = literal 1 100000 in
      let moved_x = point (add (x start) eps) (y start) in
      let moved_y = point (x start) (add (y start) eps) in
      do
        cost ← obstacle_cost_only start end obstacles
        xcost ← obstacle_cost_only moved_x end obstacles
        ycost ← obstacle_cost_only moved_y end obstacles
        some (cost, point (div (sub xcost cost) eps) (div (sub ycost cost) eps))

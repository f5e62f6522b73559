-- ===== src/Control/LinePlan/Hypotheses.antt =====
-- `GenerateHypotheses` of control/line_plan.cc: the paths that the search starts from.
pub mod Paths
use boat.Prelude.{
  ℕ, zero, suc, ◌+◌, ◌-◌, ◌*◌, ◌/◌, ◌%◌, Bool, true, false, List, [], ◌∷◌, ◌++◌, ◌==◌,
  if◌then◌else◌,
}
use boat.Prelude.Int.{pos}
use boat.Math.Polygon.{Plane}
use boat.Control.LinePlan.{num, half, heading_of}
use boat.Control.Util.{norm_angle}

module _ (pl : Plane) where
  open pl use {floats, Point, point, x, y, plus, minus, times}
  open floats use {F, add, sub, mul, div, neg, lt, of_int, pi, abs, sin, cos}

  abbrev count : ℕ → F
  count n = of_int (pos n)

  abbrev two : F
  two = num pl 2

  abbrev min_wind : F
  min_wind = num pl 1

  -- The points of a path from the round `ii` on, with the rounds that are left.
  pub points_from : ℕ → ℕ → (ℕ → Point) → List Point
  points_from zero ii at_round = []
  points_from (suc k) ii at_round = at_round ii ∷ points_from k (ii + 1) at_round

  pub straight_point : Point → Point → ℕ → ℕ → Point
  straight_point startpt diff npts ii =
      let alpha = div (add (count ii) (half pl)) (count npts) in plus startpt (times alpha diff)

  -- A point of a path that tacks: `londist` is what the round's kind of leg covers along the line,
  -- and `other` what the other kind covers; `side` is the sign of the offset in even rounds.
  pub tacking_point : Point → Point → F → F → F → Bool → ℕ → Point
  tacking_point startpt diff londist other latdist flipped ii =
      let dominantmult = add (half pl) (count (ii / 2)) in
      let recessivemult = count ((ii + 1) / 2) in
      let lon = add (mul londist dominantmult) (mul other recessivemult) in
      let side = if ii % 2 == 0 then num pl 1 else neg (num pl 1) in
      let latoffset = div (mul latdist side) two in
      let perp = point (neg (y diff)) (x diff) in
      plus (plus startpt (times lon diff))
        (times (if flipped then neg latoffset else latoffset) perp)

  abbrev path_of : Point → ℕ → (ℕ → Point) → List Point
  path_of startpt npts at_round = startpt ∷ points_from npts 0 at_round

  -- The two paths that tack.
  pub tacking_paths : Point → Point → F → ℕ → List (List Point)
  unfolding points_from tacking_point
  tacking_paths startpt diff relwind npts =
      let alpha = mul min_wind two in
      let theta = sub min_wind relwind in
      let l = div two (count npts) in
      let legdist = div (mul l (sin (sub alpha theta))) (sin alpha) in
      let latdist = mul legdist (sin theta) in
      let londist1 = mul legdist (cos theta) in
      let londist2 = sub l londist1 in
      path_of startpt npts (tacking_point startpt diff londist1 londist2 latdist false)
      ∷ path_of startpt npts (tacking_point startpt diff londist2 londist1 latdist true)
      ∷ []

  abbrev relative_wind : Point → F → F
  relative_wind diff winddir = norm_angle floats (add (sub pi winddir) (heading_of pl diff))

  -- The paths for a number of points, behind those that are there unless these are cleared.
  pub generate_hypotheses : Point → Point → F → ℕ → List (List Point) → Bool → List (List Point)
  unfolding straight_point tacking_paths points_from
  generate_hypotheses startpt endpt winddir npts paths clear_paths =
      let kept = if clear_paths then [] else paths in
      let diff = minus endpt startpt in
      let relwind = relative_wind diff winddir in
      if npts == 0
      then kept ++ (startpt ∷ []) ∷ []
      else kept
        ++ path_of startpt npts (straight_point startpt diff npts)
          ∷ (if lt (abs relwind) (num pl 1) then tacking_paths startpt diff relwind npts else [])

-- ===== src/Math/Polygon.antt =====
-- math/polygon.h and math/polygon.cc: convex polygons, and how far a point is from one. `Plane` is
-- what is used of Eigen's vectors.
pub mod Nearest
pub mod Neighbours
pub mod Grid
pub mod InRange
mod Tests
use boat.Prelude.{
  ℕ, ◌+◌, ◌%◌, Bool, true, false, ◌&&◌, List, [], ◌∷◌, ltb, if◌then◌else◌, length, get_elem?, add64,
  sub64, Option, none, some, ◌>>=◌,
}
use boat.Prelude.Floats.{Floats, fmin}

pub record Plane : Type 1 where
  pub floats : Floats
  pub Point : Type 0
  pub point : floats.F → floats.F → Point
  pub x : Point → floats.F
  pub y : Point → floats.F
  pub plus : Point → Point → Point
  pub minus : Point → Point → Point
  pub times : floats.F → Point → Point
  pub over : Point → floats.F → Point
  pub dot : Point → Point → floats.F
  pub normalized : Point → Point
  pub squared_norm : Point → floats.F
  pub norm : Point → floats.F
  pub infinity : floats.F

module _ (pl : Plane) where
  open pl use {floats, Point, point, x, y, minus, dot, normalized, squared_norm, norm, infinity}
  open floats use {F, sub, neg, lt, le, literal}

  abbrev pub zero_F : F
  zero_F = literal 0 1

  pub dist_to_line : Point → Point → Point → F
  dist_to_line l0 l1 pt =
      let perp = normalized (point (sub (y l0) (y l1)) (sub (x l1) (x l0))) in
      dot perp (minus pt l0)

  unfoldable pub projects_to_line : Point → Point → Point → Bool
  projects_to_line l0 l1 pt =
      let line = minus l1 l0 in
      let d = dot line (minus pt l0) in lt zero_F d && lt d (squared_norm line)

  unfoldable pub projects_to_ray : Point → Point → Point → Bool
  projects_to_ray l0 l1 pt = lt zero_F (dot (minus l1 l0) (minus pt l0))

  -- A vertex; `none` is an index out of range. A polygon without vertices has none to read.
  abbrev pub vertex : List Point → ℕ → Option Point
  vertex pts i = get_elem? pts i

  -- The loop of `ValidatePoints` from the round `ii` on.
  pub corners_turn_left : List Point → ℕ → List Point → Option Bool
  corners_turn_left pts ii [] = some true
  corners_turn_left pts ii (p ∷ ps) =
      let n = length pts in
      let rest = corners_turn_left pts (ii + 1) ps in
      do
        next ← vertex pts (add64 ii 1 % n)
        after_next ← vertex pts (add64 ii 2 % n)
        if lt (dist_to_line p next after_next) zero_F then some false else rest

  pub validate_points : List Point → Option Bool
  unfolding corners_turn_left
  validate_points pts = if ltb (length pts) 2 then some false else corners_turn_left pts 0 pts

  -- The loop over the vertices: the least distance so far and its vertex.
  pub nearest_from : List Point → ℕ → Point → F → ℕ → F × ℕ
  nearest_from [] ii pt mindist minvertex = (mindist, minvertex)
  nearest_from (p ∷ ps) ii pt mindist minvertex =
      let dist = norm (minus pt p) in
      nearest_from ps (ii + 1) pt (if lt dist mindist then dist else mindist)
        (if lt dist mindist then ii else minvertex)

  pub nearest : List Point → Point → F × ℕ
  nearest pts pt = nearest_from pts 0 pt infinity 0

  -- The distance from the two edges at the nearest vertex.
  pub distance_at : Point → F → Point → Point → Point → F
  distance_at pt mindist prept minpt postpt =
      let d0 = neg (dist_to_line prept minpt pt) in
      let d1 = neg (dist_to_line minpt postpt pt) in
      if lt d0 zero_F && lt d1 zero_F
      then fmin floats d0 d1
      else if projects_to_line minpt postpt pt && le zero_F d1
      then d1
      else if projects_to_line prept minpt pt && le zero_F d0
      then d0
      else mindist

  pub dist_to_point : List Point → Point → Option F
  dist_to_point pts pt =
      let (mindist, minvertex) = nearest pts pt in
      let n = length pts in
      do
        prept ← vertex pts (sub64 minvertex 1 % n)
        postpt ← vertex pts (add64 minvertex 1 % n)
        minpt ← vertex pts minvertex
        some (distance_at pt mindist prept minpt postpt)

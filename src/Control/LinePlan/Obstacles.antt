-- ===== src/Control/LinePlan/Obstacles.antt =====
-- The costs of control/line_plan.cc among obstacles that each have a vertex: no vertex is read out of
-- range.
use boat.Prelude.{ℕ, zero, suc, ◌<◌, ◌≡◌, refl, List, [], ◌∷◌, Option, some, ◌>>=◌, length, All}
use boat.Math.Polygon.{Plane}
use boat.Math.Polygon.InRange.{dist_to_point-total}
use boat.Control.LinePlan.{Gate, obstacles_at, obstacles_along, obstacle_cost_only, obstacle_cost}
use boat.Control.LinePlan.Segments.{single_line_cost_among, line_pair_cost_among}

-- There is a result.
abbrev pub IsTotal : {A : Type 0} → Option A → Type 0
IsTotal {A} r = (a : A) × (r ≡ some a)

pub bind-IsTotal :
    {A B : Type 0} {r : Option A} {f : A → Option B}
    → IsTotal r
    → ((a : A) → IsTotal (f a))
    → IsTotal (r >>= f)
bind-IsTotal (a, e) total = let (b, e') = total a in (b, rw e e')

module _ (pl : Plane) where
  open pl use {floats, Point, point, x, y, plus, minus, times, norm}
  open floats use {F, add, sub, mul, div, of_int, literal}

  -- Each has a vertex.
  abbrev pub AreSolid : List (List Point) → Type 0
  AreSolid = All (λ pts. 0 < length pts)

  obstacles_at-IsTotal :
      (obstacles : List (List Point)) (evalpt : Point) (dx cost : F)
      → AreSolid obstacles
      → IsTotal (obstacles_at pl obstacles evalpt dx cost)
  unfolding obstacles_at
  obstacles_at-IsTotal [] evalpt dx cost h = (cost, refl)
  obstacles_at-IsTotal (polygon ∷ polygons) evalpt dx cost (h, hs) =
      bind-IsTotal (dist_to_point-total pl polygon evalpt h)
        (λ dist. obstacles_at-IsTotal polygons evalpt dx _ hs)

  obstacles_along-IsTotal :
      (k : ℕ) (start end : Point) (obstacles : List (List Point)) (dx cost : F)
      → AreSolid obstacles
      → IsTotal (obstacles_along pl k start end obstacles dx cost)
  unfolding obstacles_along
  obstacles_along-IsTotal zero start end obstacles dx cost h = (cost, refl)
  obstacles_along-IsTotal (suc k) start end obstacles dx cost h =
      bind-IsTotal (obstacles_at-IsTotal obstacles _ dx cost h)
        (λ c. obstacles_along-IsTotal k start end obstacles dx c h)

  obstacle_cost_only-IsTotal :
      (start end : Point) (obstacles : List (List Point))
      → AreSolid obstacles
      → IsTotal (obstacle_cost_only pl start end obstacles)
  unfolding obstacle_cost_only
  obstacle_cost_only-IsTotal start end obstacles h =
      obstacles_along-IsTotal 10 start end obstacles _ _ h

  obstacle_cost-IsTotal :
      (start end : Point) (obstacles : List (List Point))
      → AreSolid obstacles
      → IsTotal (obstacle_cost pl start end obstacles)
  unfolding obstacle_cost
  obstacle_cost-IsTotal start end obstacles h =
      let total : (pt : Point) → IsTotal (obstacle_cost_only pl pt end obstacles) =
        λ pt. obstacle_cost_only-IsTotal pt end obstacles h in
      bind-IsTotal (total _)
        (λ cost. bind-IsTotal (total _) (λ xcost. bind-IsTotal (total _) (λ ycost. (_, refl))))

  pub single_line_cost_among-IsTotal :
      (obstacles : List (List Point)) (gate : Gate pl) (startpt : Point) (alpha preheading : F)
      (nextpt : Point) (winddir : F)
      → AreSolid obstacles
      → IsTotal (single_line_cost_among pl obstacles gate startpt alpha preheading nextpt winddir)
  unfolding single_line_cost_among
  single_line_cost_among-IsTotal obstacles gate startpt alpha preheading nextpt winddir h =
      bind-IsTotal (obstacle_cost-IsTotal _ startpt obstacles h) (λ c. (_, refl))

  pub line_pair_cost_among-IsTotal :
      (obstacles : List (List Point)) (startpt endpt turnpt : Point)
      (preheading postheading winddir scale : F)
      → AreSolid obstacles
      → IsTotal (
          line_pair_cost_among pl obstacles startpt endpt turnpt preheading postheading winddir
            scale)
  unfolding line_pair_cost_among
  line_pair_cost_among-IsTotal obstacles startpt endpt turnpt preheading postheading winddir scale
        h =
      bind-IsTotal (obstacle_cost-IsTotal turnpt startpt obstacles h)
        (λ c. bind-IsTotal (obstacle_cost-IsTotal turnpt endpt obstacles h) (λ d. (_, refl)))

-- ===== src/Math/Polygon/Grid.antt =====
-- A plane of whole numbers, for concrete points (math/polygon.h).
use boat.Prelude.{◌+◌}
use boat.Prelude.Int.{ℤ, pos, ◌+ℤ◌, ◌-ℤ◌, ◌*ℤ◌, pos_part, neg_part}
use boat.Prelude.Floats.Whole.{ints}
use boat.Math.Polygon.{Plane}

-- Whole coordinates, with the length of a vector along the axes and vectors that are not scaled.
abbrev pub grid : Plane
grid = record {
  floats = ints;
  Point = ℤ × ℤ;
  point = λ x y. (x, y);
  x = λ p. p.0;
  y = λ p. p.1;
  plus = λ p q. (p.0 +ℤ q.0, p.1 +ℤ q.1);
  minus = λ p q. (p.0 -ℤ q.0, p.1 -ℤ q.1);
  times = λ a p. (a *ℤ p.0, a *ℤ p.1);
  over = λ p a. p;
  dot = λ p q. (p.0 *ℤ q.0) +ℤ (p.1 *ℤ q.1);
  normalized = λ p. p;
  squared_norm = λ p. (p.0 *ℤ p.0) +ℤ (p.1 *ℤ p.1);
  norm = λ p. pos (pos_part p.0 + neg_part p.0 + pos_part p.1 + neg_part p.1);
  infinity = pos 1000000;
}

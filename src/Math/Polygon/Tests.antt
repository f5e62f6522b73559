-- ===== src/Math/Polygon/Tests.antt =====
-- Instances for polygons (math/polygon.cc), over whole numbers.
use boat.Prelude.{◌<◌, ◌⊎◌, ◌≡◌, refl, some, false, true, inl, List, [], ◌∷◌, arith}
use boat.Prelude.Int.{ℤ, pos, ◌+ℤ◌, ◌-ℤ◌, ◌*ℤ◌, ltb_ℤ}
use boat.Prelude.Floats.{fmin}
use boat.Prelude.Floats.Whole.{ints-IsOrdered}
use boat.Math.Polygon.{
  nearest, nearest_from, dist_to_point, distance_at, validate_points, dist_to_line,
}
use boat.Math.Polygon.Grid.{grid}
use boat.Math.Polygon.Nearest.{corner, NoneNearer}
use boat.Math.Polygon.Neighbours.{
  dist_to_point_lem, triangle_has_no_inside, vertex_before, vertex_behind,
}

abbrev square : List (ℤ × ℤ)
square = (pos 0, pos 0) ∷ (pos 4, pos 0) ∷ (pos 4, pos 4) ∷ (pos 0, pos 4) ∷ []

abbrev triangle : List (ℤ × ℤ)
triangle = (pos 0, pos 0) ∷ (pos 9, pos 0) ∷ (pos 0, pos 9) ∷ []

square_valid : validate_points grid square ≡ some true
unfolding validate_points dist_to_line ◌+ℤ◌ ◌-ℤ◌ ◌*ℤ◌
square_valid = refl

-- A point inside of the square is reported so.
inside_square :
    (d : ℤ) × (dist_to_point grid square (pos 1, pos 1) ≡ some d) × (ltb_ℤ d (pos 0) ≡ true)
unfolding dist_to_point distance_at nearest nearest_from fmin dist_to_line ◌+ℤ◌ ◌-ℤ◌ ◌*ℤ◌
inside_square = (_, refl, refl)

triangle_has_no_inside_example :
    (d : ℤ) × (dist_to_point grid triangle (pos 1, pos 1) ≡ some d) × (ltb_ℤ d (pos 0) ≡ false)
unfolding nearest nearest_from dist_to_line ◌+ℤ◌ ◌-ℤ◌ ◌*ℤ◌
triangle_has_no_inside_example =
    triangle_has_no_inside grid (pos 0, pos 0) (pos 9, pos 0) (pos 0, pos 9) (pos 1, pos 1)
      (λ a b h. ground arith) refl refl refl

-- Nearest to the third corner.
abbrev outside : ℤ × ℤ
outside = (pos 5, pos 5)

dist_to_point_lem_example :
    let (mindist, m) = nearest grid square outside in
    (dist_to_point grid square outside
      ≡ some (
          distance_at grid outside mindist
            (vertex_before grid square m)
            (corner grid square m)
            (vertex_behind grid square m)))
    × (m < 4)
    × NoneNearer grid mindist square outside
    × ((mindist ≡ grid.infinity)
        ⊎ (mindist ≡ grid.norm (grid.minus outside (corner grid square m))))
dist_to_point_lem_example =
    dist_to_point_lem grid square outside ints-IsOrdered (omega arith) (omega arith) (inl refl)

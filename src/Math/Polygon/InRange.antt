-- ===== src/Math/Polygon/InRange.antt =====
-- The indices of math/polygon.cc are in range where a polygon has a vertex.
use native.Mathlib.Nat.{mod-lt}
use boat.Prelude.{
  ℕ, ◌+◌, ◌%◌, ◌<◌, ◌≤◌, ◌≡◌, true, Bool, false, inl, inr, List, [], ◌∷◌, some, refl, arith, length,
  get_elem?-in_range, Bool-cases, add64, sub64, ltb, if◌then◌else◌,
}
use boat.Math.Polygon.{
  Plane, nearest_from, nearest, distance_at, dist_to_line, dist_to_point, corners_turn_left,
  validate_points, zero_F,
}

module _ (pl : Plane) where
  open pl use {floats, Point, minus, norm, infinity}
  open floats use {F, lt}

  nearest_from-in_range :
      (ps : List Point) (ii : ℕ) (pt : Point) (d : F) (m n : ℕ)
      → m < n
      → ii + length ps ≤ n
      → (nearest_from pl ps ii pt d m).1 < n
  unfolding nearest_from
  nearest_from-in_range [] ii pt d m n h l = h
  nearest_from-in_range (p ∷ ps) ii pt d m n h l =
      nearest_from-in_range ps (ii + 1) pt _ (if lt (norm (minus pt p)) d then ii else m) n
        (ground (arith, h, l)) (omega (arith, l))

  pub dist_to_point-total :
      (pts : List Point) (pt : Point)
      → 0 < length pts
      → (d : F) × (dist_to_point pl pts pt ≡ some d)
  unfolding dist_to_point nearest
  dist_to_point-total pts pt h =
      let (mindist, m) = nearest pl pts pt in
      let n = length pts in
      let (prept, e0) = get_elem?-in_range pts (sub64 m 1 % n) (mod-lt (sub64 m 1) h) in
      let (postpt, e1) = get_elem?-in_range pts (add64 m 1 % n) (mod-lt (add64 m 1) h) in
      let (minpt, e2) =
        get_elem?-in_range pts m (nearest_from-in_range pts 0 pt infinity 0 n h (omega arith)) in
      (distance_at pl pt mindist prept minpt postpt, rw (e0, e1, e2))

  corners_turn_left-total :
      (pts ps : List Point) (ii : ℕ)
      → 0 < length pts
      → (b : Bool) × (corners_turn_left pl pts ii ps ≡ some b)
  unfolding corners_turn_left
  corners_turn_left-total pts [] ii h = (true, refl)
  corners_turn_left-total pts (p ∷ ps) ii h =
      let n = length pts in
      let (next, e1) = get_elem?-in_range pts (add64 ii 1 % n) (mod-lt (add64 ii 1) h) in
      let (after_next, e2) = get_elem?-in_range pts (add64 ii 2 % n) (mod-lt (add64 ii 2) h) in
      let (b, e) = corners_turn_left-total pts ps (ii + 1) h in
      elim (Bool-cases (lt (dist_to_line pl p next after_next) (zero_F pl))) [
        | inl c ↦ (false, rw (e1, e2, c))
        | inr c ↦ (b, rw (e1, e2, c) e)
      ]

  -- The check reads no vertex out of range, and lets no polygon of fewer than two pass.
  pub validate_points-total :
      (pts : List Point)
      → (b : Bool) × (validate_points pl pts ≡ some b) × (b ≡ true → 2 ≤ length pts)
  unfolding validate_points
  validate_points-total pts = elim (Bool-cases (ltb (length pts) 2)) [
    | inl few ↦ (false, rw few, λ t. absurd cc)
    | inr enough ↦
        let two : 2 ≤ length pts = ground (arith, enough) in
        let (b, e) = corners_turn_left-total pts pts 0 (omega (arith, two)) in
        (b, rw enough e, λ t. two)
  ]

-- ===== src/Math/Polygon/Neighbours.antt =====
-- The vertices beside the nearest one in `DistToPoint` of math/polygon.cc. The index before it is
-- taken as an unsigned number modulo the number of vertices.
use native.Mathlib.Nat.{mod-lt, suc-mod}
use boat.Prelude.{
  ℕ, zero, suc, ◌+◌, ◌-◌, ◌%◌, ◌^◌, ◌<◌, ◌≡◌, refl, sym, ap₂, ◌∙◌, ◌⊎◌, inl, inr, true, false, List,
  [], ◌∷◌, arith, length, some, get_elem?, if◌then◌else◌, ◌==◌, sub64, add64, mod_cases,
}
use boat.Prelude.Floats.{IsOrdered}
use boat.Math.Polygon.{Plane, nearest, distance_at, dist_to_point, dist_to_line, zero_F}
use boat.Math.Polygon.Nearest.{corner, NoneNearer, nearest_lem}

module _ (pl : Plane) where
  open pl use {floats, Point, minus, norm, infinity}
  open floats use {F, lt, le, neg}

  -- The vertices before and behind a vertex, going round.
  abbrev pub vertex_before : List Point → ℕ → Point
  vertex_before pts m = corner pl pts (if m == 0 then length pts - 1 else m - 1)

  abbrev pub vertex_behind : List Point → ℕ → Point
  vertex_behind pts m = corner pl pts (if m + 1 == length pts then 0 else m + 1)

  last_of_divisor : (n : ℕ) → 0 < n → 2 ^ 64 % n ≡ 0 → 18446744073709551615 % n ≡ n - 1
  last_of_divisor n h e =
      let r = 18446744073709551615 % n in
      let small : r < n = mod-lt 18446744073709551615 h in
      let step : suc r % n ≡ 0 = sym (suc-mod 18446744073709551615 n) ∙ e in
      omega (arith, small, step, mod_cases (suc r) n (omega (arith, small)))

  index_before :
      (m n : ℕ)
      → m < n
      → n < 2 ^ 63
      → (2 ^ 64 % n ≡ 0) ⊎ (0 < m)
      → sub64 m 1 % n ≡ (if m == 0 then n - 1 else m - 1)
  index_before zero n h b (inl d) = last_of_divisor n h d
  index_before zero n h b (inr p) = absurd (omega arith)
  index_before (suc m) n h b c =
      let same : sub64 (suc m) 1 ≡ m =
        omega (arith, mod_cases (suc m + 2 ^ 64 - 1) (2 ^ 64) (omega arith)) in
      rw same (ground (arith, mod_cases m n (omega arith)))

  index_behind : (m n : ℕ) → m < n → n < 2 ^ 63 → add64 m 1 % n ≡ (if m + 1 == n then 0 else m + 1)
  index_behind m n h b =
      let same : add64 m 1 ≡ m + 1 = omega (arith, mod_cases (m + 1) (2 ^ 64) (omega arith)) in
      rw same (ground (arith, mod_cases (m + 1) n (omega arith)))

  corner-in_range :
      (pts : List Point) (i : ℕ) → i < length pts → get_elem? pts i ≡ some (corner pl pts i)
  corner-in_range [] i h = absurd (omega arith)
  corner-in_range (p ∷ pts) zero h = refl
  corner-in_range (p ∷ pts) (suc i) h = corner-in_range pts i (omega arith)

  -- `DistToPoint` takes the vertex than which none is nearer to the point, and measures from the
  -- edges to the vertices before and behind it, going round: where the number of vertices divides
  -- 2 ^ 64, or the nearest vertex is not the first.
  pub dist_to_point_lem :
      (pts : List Point) (pt : Point)
      → IsOrdered floats
      → 0 < length pts
      → length pts < 2 ^ 63
      → (2 ^ 64 % length pts ≡ 0) ⊎ (0 < (nearest pl pts pt).1)
      → let (mindist, m) = nearest pl pts pt in
        (dist_to_point pl pts pt
          ≡ some (
              distance_at pl pt mindist
                (vertex_before pts m)
                (corner pl pts m)
                (vertex_behind pts m)))
        × (m < length pts)
        × NoneNearer pl mindist pts pt
        × ((mindist ≡ infinity) ⊎ (mindist ≡ norm (minus pt (corner pl pts m))))
  unfolding dist_to_point
  dist_to_point_lem pts pt o h b c =
      let (inside, none_nearer, found) = nearest_lem pl o pts pt h in
      let m = (nearest pl pts pt).1 in
      let n = length pts in
      let e0 = corner-in_range pts (sub64 m 1 % n) (mod-lt (sub64 m 1) h) in
      let e1 = corner-in_range pts (add64 m 1 % n) (mod-lt (add64 m 1) h) in
      let e2 = corner-in_range pts m inside in
      (
        rw (e0, e1, e2)
            (ap₂
              (λ before behind. some (
                distance_at pl pt (nearest pl pts pt).0 (corner pl pts before) (corner pl pts m)
                  (corner pl pts behind)))
              (index_before m n inside b c) (index_behind m n inside b)),
        inside,
        none_nearer,
        found,
      )

  never_inside :
      (p0 p1 pt : Point) (mindist : F)
      → ((a b : F) → le a b ≡ true → lt b a ≡ false)
      → lt (neg (dist_to_line pl p0 p0 pt)) (zero_F pl) ≡ false
      → lt mindist (zero_F pl) ≡ false
      → lt (distance_at pl pt mindist p0 p0 p1) (zero_F pl) ≡ false
  unfolding distance_at
  never_inside p0 p1 pt mindist order flat positive =
      ground (arith, flat, positive, order (zero_F pl) (neg (dist_to_line pl p0 p1 pt)))

  -- With three vertices the vertex before the first is taken to be the first itself: where that is the
  -- nearest, no point is reported as inside, wherever it is, if a line without length is at no
  -- distance below zero on either side, and distances are not below zero.
  pub triangle_has_no_inside :
      (p0 p1 p2 pt : Point)
      → ((a b : F) → le a b ≡ true → lt b a ≡ false)
      → lt (neg (dist_to_line pl p0 p0 pt)) (zero_F pl) ≡ false
      → (nearest pl (p0 ∷ p1 ∷ p2 ∷ []) pt).1 ≡ 0
      → lt (nearest pl (p0 ∷ p1 ∷ p2 ∷ []) pt).0 (zero_F pl) ≡ false
      → (d : F) × (dist_to_point pl (p0 ∷ p1 ∷ p2 ∷ []) pt ≡ some d) × (lt d (zero_F pl) ≡ false)
  unfolding dist_to_point
  triangle_has_no_inside p0 p1 p2 pt order flat first positive =
      let least = (nearest pl (p0 ∷ p1 ∷ p2 ∷ []) pt).0 in
      (
        distance_at pl pt least p0 p0 p1,
        rw first refl,
        never_inside p0 p1 pt least order flat positive,
      )

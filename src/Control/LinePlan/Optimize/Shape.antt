-- ===== src/Control/LinePlan/Optimize/Shape.antt =====
-- The shape of the paths that control/line_plan.cc optimises: a list of legs, none empty. A leg that
-- is exchanged for one of its length keeps it.
use boat.Prelude.{
  ℕ, zero, suc, ◌<◌, ◌≡◌, refl, ap, true, List, [], ◌∷◌, map, Option, some, length, get_elem?, set,
  ◌>>=◌, arith,
}
use boat.Control.LinePlan.Optimize.{all_nonempty}
use boat.Math.Polygon.{Plane}

module _ {ℓ} {A : Type ℓ} where
  pub map-length-set :
      (xs : List (List A)) (i : ℕ) (x y : List A)
      → get_elem? xs i ≡ some x
      → length y ≡ length x
      → map length (set xs i y) ≡ map length xs
  map-length-set [] i x y h k = refl
  map-length-set (a ∷ xs) zero x y h k = ap (λ n. n ∷ map length xs) cc
  map-length-set (a ∷ xs) (suc i) x y h k = ap (λ ns. length a ∷ ns) (map-length-set xs i x y h k)

  -- The first point of the first leg.
  abbrev pub first_of : List (List A) → Option A
  first_of xs = get_elem? xs 0 >>= λ x. get_elem? x 0

  pub first_of-set :
      (xs : List (List A)) (i : ℕ) (x y : List A)
      → get_elem? xs i ≡ some x
      → get_elem? y 0 ≡ get_elem? x 0
      → first_of (set xs i y) ≡ first_of xs
  first_of-set [] i x y h k = refl
  first_of-set (a ∷ xs) zero x y h k = cc
  first_of-set (a ∷ xs) (suc i) x y h k = refl

  pub first_of-set_later :
      (xs : List (List A)) (i : ℕ) (y : List A) → first_of (set xs (suc i) y) ≡ first_of xs
  first_of-set_later [] i y = refl
  first_of-set_later (a ∷ xs) i y = refl

module _ (pl : Plane) where
  open pl use {Point}

  pub all_nonempty-get :
      (xs : List (List Point)) (i : ℕ) (x : List Point)
      → all_nonempty pl xs ≡ true
      → get_elem? xs i ≡ some x
      → 0 < length x
  all_nonempty-get [] i x h e = absurd cc
  all_nonempty-get ([] ∷ xs) i x h e = absurd cc
  all_nonempty-get ((p ∷ pts) ∷ xs) zero x h e = ground arith
  all_nonempty-get ((p ∷ pts) ∷ xs) (suc i) x h e = all_nonempty-get xs i x h e

  pub all_nonempty-set :
      (xs : List (List Point)) (i : ℕ) (y : List Point)
      → all_nonempty pl xs ≡ true
      → 0 < length y
      → all_nonempty pl (set xs i y) ≡ true
  all_nonempty-set [] i y h k = refl
  all_nonempty-set ([] ∷ xs) i y h k = absurd cc
  all_nonempty-set ((p ∷ pts) ∷ xs) zero [] h k = absurd (omega arith)
  all_nonempty-set ((p ∷ pts) ∷ xs) zero (q ∷ y) h k = h
  all_nonempty-set ((p ∷ pts) ∷ xs) (suc i) y h k = all_nonempty-set xs i y h k

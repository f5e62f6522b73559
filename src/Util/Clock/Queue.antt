-- ===== src/Util/Clock/Queue.antt =====
-- The queue of wake-up times of util/clock.h: what each change does to its order and its counts.
use boat.Prelude.{
  ℕ, zero, suc, ◌+◌, ◌≤◌, ◌<◌, ◌≡◌, refl, List, [], ◌∷◌, arith, ◌==◌, if◌then◌else◌, length, get_or,
}
use boat.Util.Clock.{push, drop_past, pop_equal, remove_at, top_or}

abbrev pub count : ℕ → List ℕ → ℕ
count a [] = 0
count a (x ∷ xs) = if x == a then suc (count a xs) else count a xs

-- In order, from a bound on.
abbrev pub IsSortedFrom : ℕ → List ℕ → Type 0
IsSortedFrom lo [] = Unit
IsSortedFrom lo (x ∷ xs) = (lo ≤ x) × IsSortedFrom x xs

abbrev pub one_if_eq : ℕ → ℕ → ℕ
one_if_eq a b = if a == b then 1 else 0

pub push-IsSortedFrom :
    (t lo : ℕ) (xs : List ℕ) → lo ≤ t → IsSortedFrom lo xs → IsSortedFrom lo (push t xs)
unfolding push
push-IsSortedFrom t lo [] h s = (h, tt)
push-IsSortedFrom t lo (x ∷ xs) h s = ground (arith, push-IsSortedFrom t x xs)

pub count-push : (a t : ℕ) (xs : List ℕ) → count a (push t xs) ≡ count a xs + one_if_eq t a
unfolding push
count-push a t [] = ground arith
count-push a t (x ∷ xs) = ground (arith, count-push a t xs)

pub drop_past_none : (now : ℕ) (xs : List ℕ) → IsSortedFrom now xs → drop_past now xs ≡ xs
unfolding drop_past
drop_past_none now [] s = refl
drop_past_none now (x ∷ xs) s = ground arith

-- What is listed lies behind the bound.
pub le_of_count : (a lo : ℕ) (xs : List ℕ) → IsSortedFrom lo xs → 0 < count a xs → lo ≤ a
le_of_count a lo [] s h = absurd (omega arith)
le_of_count a lo (x ∷ xs) s h = ground (arith, le_of_count a x xs)

pub IsSortedFrom-mono :
    (lo hi : ℕ) (xs : List ℕ) → hi ≤ top_or hi xs → IsSortedFrom lo xs → IsSortedFrom hi xs
IsSortedFrom-mono lo hi [] h s = tt
IsSortedFrom-mono lo hi (x ∷ xs) h s = (h, s.1)

-- A time that has come and is listed is at the top.
pub count-pop_equal :
    (a len : ℕ) (xs : List ℕ)
    → IsSortedFrom len xs
    → 0 < count len xs
    → count a (pop_equal len xs) + one_if_eq len a ≡ count a xs
unfolding pop_equal
count-pop_equal a len [] s h = absurd (omega arith)
count-pop_equal a len (x ∷ xs) s h = ground (arith, le_of_count len x xs)

pub pop_equal-IsSortedFrom :
    (lo len : ℕ) (xs : List ℕ) → IsSortedFrom lo xs → IsSortedFrom lo (pop_equal len xs)
unfolding pop_equal
pop_equal-IsSortedFrom lo len [] s = tt
pop_equal-IsSortedFrom lo len (x ∷ []) s = ground arith
pop_equal-IsSortedFrom lo len (x ∷ y ∷ xs) s = ground arith

pub count-remove_at :
    (a i : ℕ) (xs : List ℕ)
    → i < length xs
    → count a (remove_at i xs) + one_if_eq (get_or xs i 0) a ≡ count a xs
count-remove_at a i [] h = absurd (omega arith)
count-remove_at a zero (x ∷ xs) h = ground arith
count-remove_at a (suc i) (x ∷ xs) h = ground (arith, count-remove_at a i xs)

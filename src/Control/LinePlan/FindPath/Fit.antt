-- ===== src/Control/LinePlan/FindPath/Fit.antt =====
-- The hypotheses that `FindMultiplePath` (control/line_plan.cc) builds: a path for every leg, the
-- points counted, and no more of them than the limit.
use boat.Prelude.{
  ℕ, ◌+◌, ◌-◌, ◌<◌, ◌≤◌, ◌≡◌, refl, ap, ◌∙◌, true, List, [], ◌∷◌, ◌++◌, map, some, length,
  length-append, take, take-append_left, All, All-append, leb, le→leb, leb→le, Bool-cases, inl, inr,
  arith,
}
use boat.Math.Polygon.{Plane}
use boat.Control.LinePlan.Optimize.{all_nonempty}
use boat.Control.LinePlan.Optimize.Shape.{first_of}
use boat.Control.LinePlan.FindPath.{Hypothesis, fits, grown, extend, branch, branches, add_leg}

abbrev pub sum : List ℕ → ℕ
sum [] = 0
sum (n ∷ ns) = n + sum ns

module _ (pl : Plane) where
  open pl use {floats, Point}
  open floats use {F}

  -- The points of all legs.
  abbrev pub total : List (List Point) → ℕ
  total paths = sum (map length paths)

  total-append :
      (xs : List (List Point)) (y : List Point) → total (xs ++ y ∷ []) ≡ total xs + length y
  total-append [] y = omega arith
  total-append (x ∷ xs) y = omega (arith, total-append xs y)

  all_nonempty-append :
      (xs : List (List Point)) (y : List Point)
      → all_nonempty pl xs ≡ true
      → 0 < length y
      → all_nonempty pl (xs ++ y ∷ []) ≡ true
  all_nonempty-append [] [] h k = absurd (omega arith)
  all_nonempty-append [] (p ∷ y) h k = refl
  all_nonempty-append ([] ∷ xs) y h k = absurd cc
  all_nonempty-append ((p ∷ x) ∷ xs) y h k = all_nonempty-append xs y h k

  first_of-append :
      (xs : List (List Point)) (y : List Point)
      → 0 < length xs
      → first_of (xs ++ y ∷ []) ≡ first_of xs
  first_of-append [] y h = absurd (omega arith)
  first_of-append (x ∷ xs) y h = refl

  -- A hypothesis for so many legs and at most so many points, from the given one.
  abbrev pub IsFit : Point → ℕ → ℕ → Hypothesis pl → Type 0
  IsFit startpt legs limit h =
      (length h.paths ≡ legs)
      × (all_nonempty pl h.paths ≡ true)
      × (h.points ≡ total h.paths)
      × (h.points ≤ limit)
      × (first_of h.paths ≡ some startpt)

  module _ (startpt : Point) (legs limit : ℕ) where
    grown-IsFit :
        (h : Hypothesis pl) (hypo : List Point) (some_legs : 0 < legs)
        → IsFit startpt legs limit h
        → 0 < length hypo
        → h.points + length hypo ≤ limit + 1
        → IsFit startpt (legs + 1) (limit + 1) (grown pl h h.paths hypo)
    grown-IsFit h hypo some_legs (n, ne, t, l, f) k m = (
      omega (arith, length-append h.paths (hypo ∷ []), n),
      all_nonempty-append h.paths hypo ne k,
      omega (arith, total-append h.paths hypo, t),
      m,
      first_of-append h.paths hypo (omega (arith, n, some_legs)) ∙ f,
    )

    extend-grown :
        (h : Hypothesis pl) (first : List Point)
        → length first ≡ 1
        → IsFit startpt legs limit h
        → extend pl (limit + 1) first h ≡ grown pl h h.paths first
    unfolding extend
    extend-grown h first k (n, ne, t, l, f) =
        rw (le→leb (h.points + length first) (limit + 1) (omega (arith, l, k)))

    extend-IsFit :
        (first : List Point) (hs : List (Hypothesis pl)) (some_legs : 0 < legs)
        → length first ≡ 1
        → All (IsFit startpt legs limit) hs
        → All (IsFit startpt (legs + 1) (limit + 1)) (map (extend pl (limit + 1) first) hs)
    extend-IsFit first [] some_legs k fit = tt
    extend-IsFit first (h ∷ hs) some_legs k (fit, fits) = rw (extend-grown h first k fit) (
      grown-IsFit h first some_legs fit (omega (arith, k)) (omega (arith, fit.3, k)),
      extend-IsFit first hs some_legs k fits,
    )

    -- Less its last path, the changed hypothesis is the old one.
    unchanged :
        (h : Hypothesis pl) (first : List Point)
        → take (length (h.paths ++ first ∷ []) - 1) (h.paths ++ first ∷ []) ≡ h.paths
    unchanged h first =
        ap (λ n. take n (h.paths ++ first ∷ [])) (omega (arith, length-append h.paths (first ∷ [])))
        ∙ take-append_left h.paths (first ∷ [])

    branch-IsFit :
        (first hypo : List Point) (hs : List (Hypothesis pl)) (some_legs : 0 < legs)
        → length first ≡ 1
        → 0 < length hypo
        → All (IsFit startpt legs limit) hs
        → All (IsFit startpt (legs + 1) (limit + 1)) (branch pl (limit + 1) first hypo hs)
    unfolding branch
    branch-IsFit first hypo [] some_legs k m fit = tt
    branch-IsFit first hypo (h ∷ hs) some_legs k m (fit, fits) =
        let rest = branch-IsFit first hypo hs some_legs k m fits in
        elim (Bool-cases (leb (h.points + length hypo) (limit + 1))) [
          | inl e ↦
              rw (e, extend-grown h first k fit, unchanged h first)
                (
                  grown-IsFit h hypo some_legs fit m
                      (leb→le (h.points + length hypo) (limit + 1) e),
                  rest,
                )
          | inr e ↦ rw e rest
        ]

    branches-IsFit :
        (first : List Point) (hypos : List (List Point)) (hs : List (Hypothesis pl))
        (some_legs : 0 < legs)
        → length first ≡ 1
        → All (λ hypo. 0 < length hypo) hypos
        → All (IsFit startpt legs limit) hs
        → All (IsFit startpt (legs + 1) (limit + 1)) (branches pl (limit + 1) first hypos hs)
    unfolding branches
    branches-IsFit first [] hs some_legs k m fit = tt
    branches-IsFit first (hypo ∷ hypos) hs some_legs k (m, ms) fit =
        All-append (IsFit startpt (legs + 1) (limit + 1)) (branch pl (limit + 1) first hypo hs) _
          (branch-IsFit first hypo hs some_legs k m fit)
          (branches-IsFit first hypos hs some_legs k ms fit)

    pub add_leg-IsFit :
        (first : List Point) (hypos : List (List Point)) (hs : List (Hypothesis pl))
        (some_legs : 0 < legs)
        → length first ≡ 1
        → All (λ hypo. 0 < length hypo) hypos
        → 0 < length hs
        → All (IsFit startpt legs limit) hs
        → All (IsFit startpt (legs + 1) (limit + 1)) (add_leg pl (limit + 1) (first ∷ hypos) hs)
          × (0 < length (add_leg pl (limit + 1) (first ∷ hypos) hs))
    unfolding add_leg
    add_leg-IsFit first hypos [] some_legs k m ns fit = absurd (omega arith)
    add_leg-IsFit first hypos (h ∷ hs) some_legs k m ns fit = (
      All-append (IsFit startpt (legs + 1) (limit + 1)) (map (extend pl (limit + 1) first) (h ∷ hs))
          _ (extend-IsFit first (h ∷ hs) some_legs k fit)
          (branches-IsFit first hypos (h ∷ hs) some_legs k m fit),
      omega arith,
    )

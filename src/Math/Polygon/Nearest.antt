-- ===== src/Math/Polygon/Nearest.antt =====
-- The nearest vertex in `DistToPoint` of math/polygon.cc.
use boat.Prelude.{
  ℕ, suc, ◌+◌, ◌-◌, ◌<◌, ◌≤◌, ◌≡◌, refl, sym, ap, ◌∙◌, subst, ◌⊎◌, inl, inr, true, false, List, [],
  ◌∷◌, arith, length, Bool-cases, get_or,
}
use boat.Prelude.Floats.{IsOrdered}
use boat.Math.Polygon.{Plane, nearest_from, nearest}

module _ (pl : Plane) where
  open pl use {floats, Point, point, minus, norm, infinity}
  open floats use {F, lt}

  -- A vertex whose index is in range.
  abbrev pub corner : List Point → ℕ → Point
  corner pts i = get_or pts i (point infinity infinity)

  abbrev pub NoneNearer : F → List Point → Point → Type 0
  NoneNearer d [] pt = Unit {0}
  NoneNearer d (p ∷ ps) pt = (lt (norm (minus pt p)) d ≡ false) × NoneNearer d ps pt

  -- The loop keeps what it had, or finds a nearer vertex among those from the round `ii` on.
  abbrev Found : Point → F → ℕ → ℕ → List Point → F × ℕ → Type 0
  Found pt d m ii ps found =
      ((found.0 ≡ d) × (found.1 ≡ m))
      ⊎ ((lt found.0 d ≡ true)
          × (ii ≤ found.1)
          × (found.1 < ii + length ps)
          × (norm (minus pt (corner ps (found.1 - ii))) ≡ found.0))

  module _ (o : IsOrdered floats) where
    corner-later :
        (p : Point) (ps : List Point) (ii k : ℕ)
        → ii + 1 ≤ k
        → corner (p ∷ ps) (k - ii) ≡ corner ps (k - (ii + 1))
    corner-later p ps ii k h =
        let e : k - ii ≡ suc (k - (ii + 1)) = omega arith in ap (corner (p ∷ ps)) e

    nearer-Found :
        (p pt : Point) (ps : List Point) (d : F) (m ii : ℕ) (found : F × ℕ)
        → lt (norm (minus pt p)) d ≡ true
        → Found pt (norm (minus pt p)) ii (ii + 1) ps found
        → Found pt d m ii (p ∷ ps) found
    nearer-Found p pt ps d m ii found h (inl (e, i)) =
        let first : found.1 - ii ≡ 0 = omega arith in
        inr (
          rw e h,
          omega arith,
          omega arith,
          ap (λ k. norm (minus pt (corner (p ∷ ps) k))) first ∙ sym e,
        )
    nearer-Found p pt ps d m ii found h (inr (l, a, b, e)) = inr (
      o.lt_trans found.0 (norm (minus pt p)) d l h,
      omega arith,
      omega arith,
      ap (λ v. norm (minus pt v)) (corner-later p ps ii found.1 a) ∙ e,
    )

    kept-Found :
        (p pt : Point) (ps : List Point) (d : F) (m ii : ℕ) (found : F × ℕ)
        → Found pt d m (ii + 1) ps found
        → Found pt d m ii (p ∷ ps) found
    kept-Found p pt ps d m ii found (inl q) = inl q
    kept-Found p pt ps d m ii found (inr (l, a, b, e)) = inr (
      l,
      omega arith,
      omega arith,
      ap (λ v. norm (minus pt v)) (corner-later p ps ii found.1 a) ∙ e,
    )

    -- A vertex that was nearer, or not, is not nearer than what is found from it on.
    passed_nearer :
        (dist d : F) (m ii : ℕ) (pt : Point) (ps : List Point) (found : F × ℕ)
        → Found pt dist m ii ps found
        → lt dist found.0 ≡ false
    passed_nearer dist d m ii pt ps found (inl (e, i)) = rw e (o.lt_irrefl dist)
    passed_nearer dist d m ii pt ps found (inr q) =
        ground (arith, q.0, o.lt_trans dist found.0 dist, o.lt_irrefl dist)

    passed_farther :
        (dist d : F) (m ii : ℕ) (pt : Point) (ps : List Point) (found : F × ℕ)
        → lt dist d ≡ false
        → Found pt d m ii ps found
        → lt dist found.0 ≡ false
    passed_farther dist d m ii pt ps found h (inl (e, i)) = rw e h
    passed_farther dist d m ii pt ps found h (inr q) =
        ground (arith, q.0, o.lt_trans dist found.0 d)

    step-nearer :
        (p : Point) (ps : List Point) (ii : ℕ) (pt : Point) (d : F) (m : ℕ)
        → lt (norm (minus pt p)) d ≡ true
        → nearest_from pl (p ∷ ps) ii pt d m ≡ nearest_from pl ps (ii + 1) pt (norm (minus pt p)) ii
    unfolding nearest_from
    step-nearer p ps ii pt d m e = rw (nearest_from, e) refl

    step-kept :
        (p : Point) (ps : List Point) (ii : ℕ) (pt : Point) (d : F) (m : ℕ)
        → lt (norm (minus pt p)) d ≡ false
        → nearest_from pl (p ∷ ps) ii pt d m ≡ nearest_from pl ps (ii + 1) pt d m
    unfolding nearest_from
    step-kept p ps ii pt d m e = rw (nearest_from, e) refl

    abbrev IsFound : Point → F → ℕ → ℕ → List Point → F × ℕ → Type 0
    IsFound pt d m ii ps found = Found pt d m ii ps found × NoneNearer found.0 ps pt

    nearest_from-IsFound :
        (ps : List Point) (ii : ℕ) (pt : Point) (d : F) (m : ℕ)
        → IsFound pt d m ii ps (nearest_from pl ps ii pt d m)
    unfolding nearest_from
    nearest_from-IsFound [] ii pt d m = (inl (refl, refl), tt)
    nearest_from-IsFound (p ∷ ps) ii pt d m = elim (Bool-cases (lt (norm (minus pt p)) d)) [
      | inl e ↦
          let (f, n) = nearest_from-IsFound ps (ii + 1) pt (norm (minus pt p)) ii in
          subst (IsFound pt d m ii (p ∷ ps)) (sym (step-nearer p ps ii pt d m e)) (
            nearer-Found p pt ps d m ii _ e f,
            (passed_nearer (norm (minus pt p)) d ii (ii + 1) pt ps _ f, n),
          )
      | inr e ↦
          let (f, n) = nearest_from-IsFound ps (ii + 1) pt d m in
          subst (IsFound pt d m ii (p ∷ ps)) (sym (step-kept p ps ii pt d m e)) (
            kept-Found p pt ps d m ii _ f,
            (passed_farther (norm (minus pt p)) d m (ii + 1) pt ps _ e f, n),
          )
    ]

    -- The loop ends at a vertex than which none is nearer.
    pub nearest_lem :
        (pts : List Point) (pt : Point)
        → 0 < length pts
        → let (mindist, m) = nearest pl pts pt in
          (m < length pts)
          × NoneNearer mindist pts pt
          × ((mindist ≡ infinity) ⊎ (mindist ≡ norm (minus pt (corner pts m))))
    unfolding nearest
    nearest_lem pts pt h =
        let (f, n) = nearest_from-IsFound pts 0 pt infinity 0 in
        elim f [
          | inl (e, i) ↦ (omega arith, n, inl e)
          | inr (l, a, b, e) ↦
              let z : (nearest_from pl pts 0 pt infinity 0).1 - 0
                  ≡ (nearest_from pl pts 0 pt infinity 0).1 =
                omega arith in
              (omega arith, n, inr (sym e ∙ ap (λ k. norm (minus pt (corner pts k))) z))
        ]

-- ===== src/Control/LineTacker/Best.antt =====
-- The choice of a heading in the mode REWARD of control/line_tacking.cc.
use boat.Prelude.{
  ◌≡◌, refl, sym, subst, ◌⊎◌, inl, inr, Bool, true, false, ◌&&◌, List, [], ◌∷◌, arith, Bool-cases,
}
use boat.Prelude.Floats.{Floats, IsOrdered}
use boat.Control.LineTacker.{LineTacker}
use boat.Control.LineTacker.Rewards.{best_from, best_heading, reward, is_valid_heading}

module _ (fl : Floats) (o : IsOrdered fl) where
  open fl use {F, lt, literal}

  module _ (reward_of : F → F) (is_valid : F → Bool) where
    abbrev best : List F → F → F → F × F
    best = best_from fl reward_of is_valid

    -- Either nothing was better than what was there before, or a valid heading was.
    abbrev Improved : F → F → F × F → Type 0
    Improved m b found =
        ((found.0 ≡ m) × (found.1 ≡ b))
        ⊎ ((found.0 ≡ reward_of found.1) × (is_valid found.1 ≡ true) × (lt m found.0 ≡ true))

    abbrev pub NoneBetter : F → List F → Type 0
    NoneBetter m [] = Unit
    NoneBetter m (h ∷ hs) = ((is_valid h && lt m (reward_of h)) ≡ false) × NoneBetter m hs

    better-Improved :
        (m b h : F) (found : F × F)
        → is_valid h ≡ true
        → lt m (reward_of h) ≡ true
        → Improved (reward_of h) h found
        → Improved m b found
    better-Improved m b h found v l (inl (p, q)) = inr (ground arith, ground arith, ground arith)
    better-Improved m b h found v l (inr (p, q, r)) =
        inr (p, q, o.lt_trans m (reward_of h) found.0 l r)

    best-better :
        (m b h : F) (hs : List F)
        → (is_valid h && lt m (reward_of h)) ≡ true
        → best (h ∷ hs) m b ≡ best hs (reward_of h) h
    unfolding best_from
    best-better m b h hs e = rw (best_from, e)

    best-worse :
        (m b h : F) (hs : List F)
        → (is_valid h && lt m (reward_of h)) ≡ false
        → best (h ∷ hs) m b ≡ best hs m b
    unfolding best_from
    best-worse m b h hs e = rw (best_from, e)

    best-Improved : (hs : List F) (m b : F) → Improved m b (best hs m b)
    best-Improved [] m b = unfold best_from in (inl (refl, refl))
    best-Improved (h ∷ hs) m b = elim (Bool-cases (is_valid h && lt m (reward_of h))) [
      | inl yes_better ↦
          rw (best-better m b h hs yes_better) (
            better-Improved m b h _ (ground arith) (ground arith)
              (best-Improved hs (reward_of h) h))
      | inr not_better ↦ rw (best-worse m b h hs not_better) (best-Improved hs m b)
    ]

    -- What is no better than a bound is no better than one that is reached from it.
    passed :
        (m b h : F) (found : F × F)
        → (is_valid h && lt m (reward_of h)) ≡ false
        → Improved m b found
        → (is_valid h && lt found.0 (reward_of h)) ≡ false
    passed m b h found k (inl (p, q)) = ground arith
    passed m b h found k (inr (p, q, r)) = ground (arith, o.lt_trans m found.0 (reward_of h))

    best-NoneBetter : (hs : List F) (m b : F) → NoneBetter (best hs m b).0 hs
    best-NoneBetter [] m b = tt
    best-NoneBetter (h ∷ hs) m b = elim (Bool-cases (is_valid h && lt m (reward_of h))) [
      | inl yes_better ↦
          subst (λ (found : F × F). NoneBetter found.0 (h ∷ hs))
            (sym (best-better m b h hs yes_better))
            (
              passed (reward_of h) h h _ (ground (arith, o.lt_irrefl (reward_of h)))
                  (best-Improved hs (reward_of h) h),
              best-NoneBetter hs (reward_of h) h,
            )
      | inr not_better ↦
          subst (λ (found : F × F). NoneBetter found.0 (h ∷ hs))
            (sym (best-worse m b h hs not_better))
            (passed m b h _ not_better (best-Improved hs m b), best-NoneBetter hs m b)
    ]

  -- Of the possible headings the one with the best reward is taken: either it is valid, its reward is
  -- above zero and no valid heading has a better one, or no valid heading has a reward above zero and
  -- it is the heading straight to the waypoint.
  pub best_heading_lem :
      (nominal : F) (headings : List F) (s : LineTacker fl)
      → let reward_of = λ (h : F). reward fl nominal h s in
        let is_valid = λ (h : F). is_valid_heading fl h s in
        let h = best_heading fl nominal headings s in
        ((h ≡ nominal) × NoneBetter reward_of is_valid (literal 0 1) headings)
        ⊎ ((is_valid h ≡ true)
            × (lt (literal 0 1) (reward_of h) ≡ true)
            × NoneBetter reward_of is_valid (reward_of h) headings)
  unfolding best_heading
  best_heading_lem nominal headings s =
      let found =
        best-Improved (λ h. reward fl nominal h s) (λ h. is_valid_heading fl h s) headings
          (literal 0 1) nominal in
      let none_better =
        best-NoneBetter (λ h. reward fl nominal h s) (λ h. is_valid_heading fl h s) headings
          (literal 0 1) nominal in
      elim found [
        | inl (p, q) ↦ inl (q, rw p at none_better)
        | inr (p, v, l) ↦ inr (v, rw p at l, rw p at none_better)
      ]

-- ===== src/Control/Adaptive/Search/Best.antt =====
-- What `GlobalMaxForceForTorque` (control/adaptive.cc) finds.
use boat.Prelude.{
  ℕ, zero, suc, ◌+◌, ◌<◌, ◌≤◌, ◌≡◌, ◌⊎◌, inl, inr, ◌↔◌, refl, ap, subst, ◌∙◌, true, false, Option,
  none, some, Bool-cases, arith,
}
use boat.Prelude.Floats.{Floats, IsOrdered}
use boat.Control.Adaptive.Search.{
  Physics, Conditions, Constraint, Trial, trial, trial_angle, Found, taken, tried, trials,
  global_max_force_for_torque,
}

module _ (fl : Floats) where
  open fl use {F, lt}

  -- One of the rounds from `ii` on is valid, and is the trial.
  abbrev pub IsRound : (ℕ → Option (Trial fl)) → ℕ → ℕ → Trial fl → Type 0
  IsRound at_round ii k t = (i : ℕ) × (ii ≤ i) × (i < ii + k) × (at_round i ≡ some t)

  -- What is kept of a trial.
  abbrev pub IsKept : Trial fl → Found fl → Type 0
  IsKept t f = (f.mincost ≡ t.cost) × (f.angles ≡ some (t.deltas, t.deltar))

  module _ (o : IsOrdered fl) (at_round : ℕ → Option (Trial fl)) where
    lt_down :
        (c low low' : F)
        → (low' ≡ low) ⊎ (lt low' low ≡ true)
        → lt c low ≡ false
        → lt c low' ≡ false
    lt_down c low low' (inl e) h = cc
    lt_down c low low' (inr e) h = ground (arith, o.lt_trans c low' low)

    -- From what was found before to what is found after some rounds.
    abbrev Leaves : ℕ → ℕ → Found fl → Found fl → Type 0
    Leaves ii k f f' =
        (((f'.mincost ≡ f.mincost) × (f'.angles ≡ f.angles))
          ⊎ ((lt f'.mincost f.mincost ≡ true)
              × ((t : Trial fl) × IsRound at_round ii k t × IsKept t f')))
        × (((t : Trial fl)
              → IsRound at_round ii k t
              → (f'.success ≡ true) × (lt t.cost f'.mincost ≡ false))
            × ((f.success ≡ true → f'.success ≡ true)
                × (f'.success ≡ true
                    → (f.success ≡ true) ⊎ ((t : Trial fl) × IsRound at_round ii k t))))

    later :
        (ii k : ℕ) (t : Trial fl) → IsRound at_round (ii + 1) k t → IsRound at_round ii (suc k) t
    later ii k t (i, h, l, e) = (i, omega (arith, h), omega (arith, l), e)

    -- Of a round and those behind it, either it is the first, or one of the others.
    first_or_later :
        (ii k : ℕ) (t : Trial fl)
        → IsRound at_round ii (suc k) t
        → (at_round ii ≡ some t) ⊎ IsRound at_round (ii + 1) k t
    first_or_later ii k t (i, h, l, e) = elim (split ii i h) [
      | inl same ↦ inl (subst (λ j. at_round j ≡ some t) same e)
      | inr more ↦ inr (i, more, omega (arith, l), e)
    ]
      where
        split : (ii i : ℕ) → ii ≤ i → (i ≡ ii) ⊎ (ii + 1 ≤ i)
        split ii i h = ground arith

    low_of :
        (ii k : ℕ) (f f' : Found fl)
        → Leaves ii k f f'
        → (f'.mincost ≡ f.mincost) ⊎ (lt f'.mincost f.mincost ≡ true)
    low_of ii k f f' (inl (e, _), _) = inl e
    low_of ii k f f' (inr (l, _), _) = inr l

    IsKept-later :
        (ii k : ℕ) (f' : Found fl)
        → (t : Trial fl) × IsRound at_round (ii + 1) k t × IsKept t f'
        → (t : Trial fl) × IsRound at_round ii (suc k) t × IsKept t f'
    IsKept-later ii k f' (t, r, h) = (t, later ii k t r, h)

    skipped :
        (ii k : ℕ) (f f' : Found fl)
        → at_round ii ≡ none
        → Leaves (ii + 1) k f f'
        → Leaves ii (suc k) f f'
    skipped ii k f f' e (kept, (all, (up, down))) = (
      elim kept [ inl same ↦ inl same | inr (l, p) ↦ inr (l, IsKept-later ii k f' p) ],
      (
        λ t r. elim (first_or_later ii k t r) [ inl e' ↦ absurd cc | inr r' ↦ all t r' ],
        (up, λ h. elim (down h) [ inl g ↦ inl g | inr (t, r) ↦ inr (t, later ii k t r) ]),
      ),
    )

    -- A valid round, whether its cost is the least so far or not.
    valid :
        (ii k : ℕ) (f g f' : Found fl) (t : Trial fl)
        → at_round ii ≡ some t
        → g.success ≡ true
        → ((g.mincost ≡ f.mincost) × (g.angles ≡ f.angles) × (lt t.cost f.mincost ≡ false))
          ⊎ ((lt t.cost f.mincost ≡ true) × IsKept t g)
        → Leaves (ii + 1) k g f'
        → Leaves ii (suc k) f f'
    valid ii k f g f' t e v how leaves =
        let (kept, (all, (up, _))) = leaves in
        let here : IsRound at_round ii (suc k) t = (ii, omega arith, omega arith, e) in
        let low = low_of (ii + 1) k g f' leaves in
        let no_less : lt t.cost f'.mincost ≡ false = elim how [
          | inl (m, _, c) ↦ lt_down t.cost g.mincost f'.mincost low (rw m c)
          | inr (_, (m, _)) ↦ lt_down t.cost g.mincost f'.mincost low (rw m (o.lt_irrefl t.cost))
        ] in
        let from : ((f'.mincost ≡ f.mincost) × (f'.angles ≡ f.angles))
            ⊎ ((lt f'.mincost f.mincost ≡ true)
                × ((u : Trial fl) × IsRound at_round ii (suc k) u × IsKept u f')) =
          elim how [
            | inl (m, n, c) ↦ elim kept [
              | inl (x, y) ↦ inl (x ∙ m, y ∙ n)
              | inr (l, p) ↦ inr (rw m at l, IsKept-later ii k f' p)
            ]
            | inr (c, (m, n)) ↦ elim kept [
              | inl (x, y) ↦ inr (rw (x ∙ m) c, (t, here, (x ∙ m, y ∙ n)))
              | inr (l, p) ↦
                  inr (o.lt_trans f'.mincost t.cost f.mincost (rw m at l) c, IsKept-later ii k f' p)
            ]
          ] in
        (
          from,
          (
            λ u r. elim (first_or_later ii k u r) [
              | inl e' ↦ let same : t.cost ≡ u.cost = cost_of t u (cc) in (up v, rw same at no_less)
              | inr r' ↦ all u r'
            ],
            (λ h. up v, λ h. inr (t, here)),
          ),
        )
      where
        cost_of : (t u : Trial fl) → t ≡ u → t.cost ≡ u.cost
        cost_of t u h = ap (λ z. z.cost) h

    one_round :
        (ii k : ℕ) (f f' : Found fl) (r : Option (Trial fl))
        → at_round ii ≡ r
        → Leaves (ii + 1) k (tried fl r f) f'
        → Leaves ii (suc k) f f'
    one_round ii k f f' none e rest = skipped ii k f f' e rest
    one_round ii k f f' (some t) e rest = elim (Bool-cases (lt t.cost f.mincost)) [
      | inl c ↦
          valid ii k f (taken fl t f) f' t e (rw c refl) (inr (c, (rw c refl, rw c refl))) rest
      | inr c ↦ valid ii k f (taken fl t f) f' t e (rw c refl) (inl (rw c refl, rw c refl, c)) rest
    ]

    trials-Leaves : (k ii : ℕ) (f : Found fl) → Leaves ii k f (trials fl at_round k ii f)
    unfolding trials
    trials-Leaves zero ii f =
        (inl (refl, refl), (λ t (i, h, l, e). absurd (omega (arith, h, l)), (λ h. h, λ h. inl h)))
    trials-Leaves (suc k) ii f =
        one_round ii k f (trials fl at_round k (ii + 1) (tried fl (at_round ii) f)) (at_round ii)
          refl (trials-Leaves k (ii + 1) (tried fl (at_round ii) f))

  -- The rounds of the search.
  abbrev pub round_of : Physics fl → Conditions fl → Constraint → ℕ → ℕ → Option (Trial fl)
  round_of ph w constraint nsteps ii = trial fl ph w constraint (trial_angle fl w.thetaw nsteps ii)

  -- Where comparing costs is a strict order: the search succeeds exactly when the rudder can be turned
  -- so far in one of the rounds; no such round costs less than what is found; and the angles are those
  -- of a round, at the cost that is found, which is less than infinity, or are not set at all, which
  -- the result does not tell.
  pub global_max_lem :
      (o : IsOrdered fl) (infinity : F) (ph : Physics fl) (w : Conditions fl)
      (constraint : Constraint) (nsteps : ℕ)
      → let f = global_max_force_for_torque fl infinity ph w constraint nsteps in
        let IsTrial = IsRound (round_of ph w constraint nsteps) 0 nsteps in
        ((f.success ≡ true) ↔ ((t : Trial fl) × IsTrial t))
        × ((t : Trial fl) → IsTrial t → lt t.cost f.mincost ≡ false)
        × (((f.mincost ≡ infinity) × (f.angles ≡ none))
            ⊎ ((lt f.mincost infinity ≡ true) × ((t : Trial fl) × IsTrial t × IsKept t f)))
  unfolding global_max_force_for_torque
  global_max_lem o infinity ph w constraint nsteps =
      let (kept, (all, (up, down))) =
        trials-Leaves o (round_of ph w constraint nsteps) nsteps 0
          (record { mincost = infinity; angles = none; success = false }) in
      (
        (λ s. elim (down s) [ inl never ↦ absurd cc | inr found ↦ found ], λ (t, r). (all t r).0),
        λ t r. (all t r).1,
        kept,
      )

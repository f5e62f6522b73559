-- ===== src/Control/LinePlan/Optimize/Viable.antt =====
-- What `OptimizeMultipleTacks` (control/line_plan.cc) returns is viable, since the test of the leg that
-- is held to what can be sailed never holds.
use boat.Prelude.{
  ℕ, zero, suc, ◌+◌, ◌≡◌, refl, ap, sym, ◌∙◌, true, ◌&&◌, List, Option, none, some, ◌==◌, length,
  get_elem?, ◌>>=◌, Bool-cases, inl, inr,
}
use boat.Math.Polygon.{Plane}
use boat.Control.LinePlan.BackPass.{back_pass}
use boat.Control.LinePlan.Optimize.{
  Query, Plan, leg_start, point_after, setting_of, after_leg, optimize_leg, optimize_legs,
  optimize_rounds, optimize_multiple_tacks, all_nonempty, new_round, step_at,
}

-- A result of two calls is one of the second, for what the first returned.
pub bind-some :
    {A B : Type 0} (r : Option A) (f : A → Option B) {b : B}
    → (r >>= f) ≡ some b
    → (a : A) × (r ≡ some a) × (f a ≡ some b)
bind-some none f e = absurd cc
bind-some (some a) f e = (a, refl, e)

module _ (pl : Plane) where
  open pl use {floats, Point}
  open floats use {F}

  abbrev IsViable : Option (Plan pl) → Type 0
  IsViable r = (p : Plan pl) → r ≡ some p → p.viable ≡ true

  some-IsViable : (p : Plan pl) → p.viable ≡ true → IsViable (some p)
  some-IsViable p v p' e = same p p' (cc) ∙ v
    where
      same : (p p' : Plan pl) → p ≡ p' → p'.viable ≡ p.viable
      same p p' e = ap (λ q. q.viable) (sym e)

  bind-IsViable :
      {A : Type 0} (r : Option A) {f : A → Option (Plan pl)}
      → ((a : A) → IsViable (f a))
      → IsViable (r >>= f)
  bind-IsViable none h p e = absurd cc
  bind-IsViable (some a) h p e = h a p e

  optimize_leg-IsViable :
      (step : F) (q : Query pl) (jj : ℕ) (p : Plan pl)
      → p.viable ≡ true
      → IsViable (optimize_leg pl step q jj p)
  unfolding optimize_leg
  optimize_leg-IsViable step q jj p v = bind-IsViable (get_elem? q.gates jj) (λ gate.
      bind-IsViable (point_after pl q jj p) (λ npt.
        bind-IsViable (leg_start pl q jj p) (λ (leg, cyaw).
          bind-IsViable (get_elem? p.alphas jj) (λ alpha.
            bind-IsViable (back_pass pl (setting_of pl step q jj cyaw) gate npt leg alpha)
              (λ passed. some-IsViable (after_leg pl jj p passed) v)))))

  optimize_legs-IsViable :
      (n : ℕ) (step : F) (q : Query pl) (jj : ℕ) (p : Plan pl)
      → p.viable ≡ true
      → IsViable (optimize_legs pl n step q jj p)
  unfolding optimize_legs
  optimize_legs-IsViable zero step q jj p v p' e = some-IsViable p v p' e
  optimize_legs-IsViable (suc n) step q jj p v p' e =
      let (p1, e1, e2) = bind-some (optimize_leg pl step q jj p) _ e in
      optimize_legs-IsViable n step q (jj + 1) p1 (optimize_leg-IsViable step q jj p v p1 e1) p' e2

  optimize_rounds-IsViable :
      (n : ℕ) (q : Query pl) (ii : ℕ) (p : Plan pl)
      → p.viable ≡ true
      → IsViable (optimize_rounds pl n q ii p)
  unfolding optimize_rounds
  optimize_rounds-IsViable zero q ii p v p' e = some-IsViable p v p' e
  optimize_rounds-IsViable (suc n) q ii p v p' e =
      let (p1, e1, e2) =
        bind-some (optimize_legs pl (length p.tacks) (step_at pl ii) q 0 (new_round pl p)) _ e in
      optimize_rounds-IsViable n q (ii + 1) p1
        (optimize_legs-IsViable (length p.tacks) (step_at pl ii) q 0 (new_round pl p) refl p1 e1) p'
        e2

  pub optimize_multiple_tacks-IsViable :
      (q : Query pl) (tacks : List (List Point)) (alphas : List F)
      → IsViable (optimize_multiple_tacks pl q tacks alphas)
  unfolding optimize_multiple_tacks
  optimize_multiple_tacks-IsViable q tacks alphas p e =
      elim (Bool-cases (
        length tacks == length alphas && length tacks == length q.gates && all_nonempty pl tacks)) [
          | inl fits ↦
              optimize_rounds-IsViable 50 q 0
                (record {
                  tacks = tacks;
                  alphas = alphas;
                  finalcost = pl.floats.literal 0 1;
                  viable = true;
                })
                refl p (rw fits at e)
          | inr other ↦ let failed = rw other at e in absurd cc
        ]

-- ===== src/Util/Clock/Loop.antt =====
-- `Loop::WaitForNext` of util/clock.cc: the time until which the next sleep lasts.
use boat.Prelude.{
  ◌-◌, ℕ, zero, suc, ◌+◌, ◌*◌, ◌≤◌, ◌<◌, ◌≡◌, Option, none, some, arith, ltb, if◌then◌else◌,
  Bool-cases, inl, inr, true, ap, ◌∙◌,
}

-- `clock n` is what the clock shows in the round `n`. `none` means that the fuel ran out.
unfoldable pub wait_for_next : ℕ → ℕ → (ℕ → ℕ) → ℕ → ℕ → Option ℕ
wait_for_next zero period clock n last_trigger = none
wait_for_next (suc fuel) period clock n last_trigger =
    let trigger = last_trigger + period in
    let rest = wait_for_next fuel period clock (n + 1) trigger in
    if ltb trigger (clock n) then rest else some trigger

-- The triggers after `k` periods and fewer were over when the clock was read for them.
abbrev pub Missed : ℕ → (ℕ → ℕ) → ℕ → ℕ → ℕ → Type 0
Missed period clock n last zero = Unit {0}
Missed period clock n last (suc k) =
    (last + suc k * period < clock (n + k)) × Missed period clock n last k

-- The loop returns the trigger after `k + 1` periods.
pub record IsNext (found : Option ℕ) (period : ℕ) (clock : ℕ → ℕ) (n last k : ℕ) : Type 0 where
  pub returned : found ≡ some (last + suc k * period)
  pub reached : clock (n + k) ≤ last + suc k * period
  pub missed : Missed period clock n last k

n_zero : (n : ℕ) → n + 0 ≡ n
n_zero n = omega arith

one_more : (last period k : ℕ) → last + period + suc k * period ≡ last + suc (suc k) * period
one_more last period k = grind arith

clock_shift : (clock : ℕ → ℕ) (n k : ℕ) → clock (n + 1 + k) ≡ clock (n + suc k)
clock_shift clock n k = ap clock (omega arith)

Missed-later :
    (period : ℕ) (clock : ℕ → ℕ) (n last k : ℕ)
    → ltb (last + period) (clock n) ≡ true
    → Missed period clock (n + 1) (last + period) k
    → Missed period clock n last (suc k)
Missed-later period clock n last zero over m = (ground (arith, ap clock (n_zero n)), tt)
Missed-later period clock n last (suc k) over m = (
  omega (arith, m.0, one_more last period k, clock_shift clock n k),
  Missed-later period clock n last k over m.1,
)

IsNext-later :
    (fuel period : ℕ) (clock : ℕ → ℕ) (n last : ℕ) {k : ℕ}
    → ltb (last + period) (clock n) ≡ true
    → IsNext
        (wait_for_next fuel period clock (n + 1) (last + period))
        period
        clock
        (n + 1)
        (last + period)
        k
    → IsNext (wait_for_next (suc fuel) period clock n last) period clock n last (suc k)
unfolding wait_for_next
IsNext-later fuel period clock n last {k} over v = record {
  returned = rw over (v.returned ∙ ap some (one_more last period k));
  reached = omega (arith, v.reached, one_more last period k, clock_shift clock n k);
  missed = Missed-later period clock n last k over v.missed;
}

pub IsNext-found :
    (fuel period limit : ℕ) (clock : ℕ → ℕ) (n last : ℕ)
    → 0 < period
    → ((m : ℕ) → clock m ≤ limit)
    → limit < last + fuel
    → 0 < fuel
    → (k : ℕ) × IsNext (wait_for_next fuel period clock n last) period clock n last k
unfolding wait_for_next
IsNext-found zero period limit clock n last p b f h = absurd (omega arith)
IsNext-found (suc fuel) period limit clock n last p b f h =
    elim (Bool-cases (ltb (last + period) (clock n))) [
      | inl over ↦
          let (k, v) =
            IsNext-found fuel period limit clock (n + 1) (last + period) p b (ground (arith, b n))
              (ground (arith, b n)) in
          (suc k, IsNext-later fuel period clock n last over v)
      | inr next ↦ (
        0,
        record {
          returned = rw next (ap some (omega arith));
          reached = ground (arith, ap clock (n_zero n));
          missed = tt;
        },
      )
    ]

-- `WaitForNext` returns if its period is not zero and the clock stays below a limit while it looks,
-- within a round more than the nanoseconds that the last trigger is behind the limit. It sleeps until
-- the first of the triggers `last_trigger + period`, `last_trigger + 2 * period` and so on that was
-- not over when the clock was read for it: the earlier ones, which were, are skipped.
pub wait_for_next_returns :
    (period limit : ℕ) (clock : ℕ → ℕ) (last_trigger : ℕ)
    → 0 < period
    → ((m : ℕ) → clock m ≤ limit)
    → (k : ℕ) × IsNext
        (wait_for_next (limit - last_trigger + 1) period clock 0 last_trigger)
        period
        clock
        0
        last_trigger
        k
wait_for_next_returns period limit clock last_trigger p b =
    IsNext-found _ period limit clock 0 last_trigger p b (omega arith) (omega arith)

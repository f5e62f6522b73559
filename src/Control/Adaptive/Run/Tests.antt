-- ===== src/Control/Adaptive/Run/Tests.antt =====
-- Instances for the adaptive controller (control/adaptive.cc), over whole numbers.
use boat.Prelude.{◌≡◌, ◌⊎◌, ◌↔◌, refl, true, false, List, [], ◌∷◌, none, some, All}
use boat.Prelude.Int.{ℤ, pos, ◌+ℤ◌, ◌-ℤ◌, ◌*ℤ◌, ltb_ℤ}
use boat.Prelude.Floats.Whole.{ints, ints-IsOrdered}
use boat.Control.Adaptive.{default_constants}
use boat.Control.Adaptive.Search.{
  Physics, Conditions, Trial, quadratic, global_max_force_for_torque,
}
use boat.Control.Adaptive.Search.Best.{IsRound, IsKept, round_of, global_max_lem}
use boat.Control.Adaptive.Run.{Adaptive, Event, boat_state, wind, heading_cmd, tick, run, start}
use boat.Control.Adaptive.Run.Ranges.{IsBounded, IsWithin, run_in_range}

abbrev sum_of_products : List ℤ → List ℤ → ℤ
sum_of_products [] bs = pos 0
sum_of_products (a ∷ rest) [] = pos 0
sum_of_products (a ∷ rest) (b ∷ bs) = (a *ℤ b) +ℤ sum_of_products rest bs

abbrev physics : Physics ints
physics = record { consts = default_constants ints; qf = pos 1; qtaumax = pos 0; qtaueq = pos 0 }

abbrev breeze : Conditions ints
breeze = record { thetaw = pos 1; vw = pos 5; thetac = pos 0; vc = pos 2; taug = pos 3 }

global_max_lem_example :
    let f = global_max_force_for_torque ints (pos 1000) physics breeze quadratic 5 in
    let IsTrial = IsRound ints (round_of ints physics breeze quadratic 5) 0 5 in
    ((f.success ≡ true) ↔ ((t : Trial ints) × IsTrial t))
    × ((t : Trial ints) → IsTrial t → ltb_ℤ t.cost f.mincost ≡ false)
    × (((f.mincost ≡ pos 1000) × (f.angles ≡ none))
        ⊎ ((ltb_ℤ f.mincost (pos 1000) ≡ true) × ((t : Trial ints) × IsTrial t × IsKept ints t f)))
global_max_lem_example = global_max_lem ints ints-IsOrdered (pos 1000) physics breeze quadratic 5

abbrev at_first : Adaptive ints sum_of_products
at_first = (start ints sum_of_products ([] ∷ [])).0

abbrev events : List (Event ints sum_of_products)
events =
    boat_state (pos 1) (pos 2) (pos 0) (pos 0) (pos 1)
    ∷ wind (pos 3) (pos 1)
    ∷ heading_cmd (some (pos 1))
    ∷ tick (pos 0, pos 0)
    ∷ []

run_in_range_example :
    let (s', out) = run ints sum_of_products (pos 1000) events at_first in
    IsBounded ints sum_of_products s'.physics.consts × All (IsWithin ints sum_of_products) out
unfolding start default_constants ◌-ℤ◌
run_in_range_example =
    run_in_range ints sum_of_products ints-IsOrdered refl refl (pos 1000) events at_first
      ((refl, refl), (refl, refl), (refl, refl), (refl, refl), (refl, refl))

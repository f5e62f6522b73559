-- ===== src/Control/Simple/Tests.antt =====
-- Instances for the controller (control/simple.cc), over whole numbers.
use boat.Prelude.{refl, true, some, none, List, [], ◌∷◌, All}
use boat.Prelude.Int.{pos, ◌+ℤ◌, ◌-ℤ◌, ◌*ℤ◌}
use boat.Prelude.Floats.Whole.{ints, ints-IsOrdered}
use boat.Control.Simple.{
  Simple, Output, start, Event, wind, tick, step, run, iterate, updated, integrated, max_rudder_at,
}
use boat.Control.Simple.Rates.{rates_lem, IsRated}
use boat.Control.Simple.Rudder.{rudder_in_range, IsBounded, IsLimited}

abbrev begun : Simple ints
unfolding start
begun = (start ints true).0

abbrev blown : List (Event ints)
blown = wind (pos 3) (pos 1) ∷ tick ∷ tick ∷ []

abbrev run_or : Simple ints × List (Output ints)
run_or = elim (run ints blown begun) [ none ↦ (begun, []) | some r ↦ r ]

rates_lem_example : IsRated ints 2 begun run_or.0 run_or.1
unfolding start run step iterate
rates_lem_example = rates_lem ints blown begun refl refl

rudder_in_range_example :
    (IsBounded ints ints-IsOrdered run_or.0.rudder_integrator
      × IsBounded ints ints-IsOrdered (integrated ints run_or.0))
    × All (IsLimited ints ints-IsOrdered run_or.0) (iterate ints run_or.0).1
unfolding start run step iterate updated max_rudder_at ◌+ℤ◌ ◌-ℤ◌ ◌*ℤ◌
rudder_in_range_example =
    rudder_in_range ints ints-IsOrdered (refl, refl) refl true blown {t = run_or.0} {out = run_or.1}
      refl refl

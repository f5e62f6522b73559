-- ===== src/Control/Ballast/Tests.antt =====
-- Instances for the controller of the ballast (control/ballast.cc), over whole numbers.
use boat.Prelude.{some, none, List, [], ◌∷◌, arith}
use boat.Prelude.Int.{ℤ, pos, ◌-ℤ◌, -ℤ_parts}
use boat.Prelude.Floats.Whole.{ints, ints-IsOrdered}
use boat.Control.Ballast.{Ballast, Event, heading_cmd, boat_state, tick, run, start, iterate}
use boat.Control.Ballast.Voltage.{IsWithin, IsUseful, five, voltage_in_range}

abbrev swung : List (Event ints)
swung =
    heading_cmd (record { heading = some (pos 1); extra_sail = none })
    ∷ tick
    ∷ boat_state (pos 0) (pos 0) (pos 1) (pos 0)
    ∷ []

abbrev after : Ballast ints
after = (run ints swung (start ints).0).0

neg-IsWithin :
    (a : ℤ)
    → IsWithin ints ints-IsOrdered (five ints ints-IsOrdered) a
    → IsWithin ints ints-IsOrdered (five ints ints-IsOrdered) (pos 0 -ℤ a)
neg-IsWithin a h = ground (arith, -ℤ_parts (pos 0) a, -ℤ_parts (pos 0) (pos 5), h.0, h.1)

voltage_in_range_example :
    (IsWithin ints ints-IsOrdered (pos 5) after.heel_error_integrator
      × IsWithin ints ints-IsOrdered (pos 12) (iterate ints after).0.last_voltage)
    × IsUseful ints ints-IsOrdered after (iterate ints after).0.last_voltage
voltage_in_range_example = voltage_in_range ints ints-IsOrdered neg-IsWithin swung

-- ===== src/Control/Scamp/Tests.antt =====
-- Instances for the actuator board (control/scamp.cc), over whole numbers.
use boat.Prelude.{◌≡◌, refl, false, some, none, [], ◌∷◌, if◌then◌else◌}
use boat.Prelude.Int.{pos, ◌+ℤ◌, ◌*ℤ◌, ℤ}
use boat.Prelude.Floats.Whole.{ints, ints-IsOrdered}
use boat.Control.Waypoint.{auto, disable}
use boat.Control.Scamp.{
  Scamp, Modes, start, or_default, set_raw_from_rudder_cmd, set_raw_from_sail_cmd,
}
use boat.Control.Scamp.Handlers.{
  Event, control_mode, rudder_cmd, step, run, on_control_mode, on_rudder_cmd,
}
use boat.Control.Scamp.Safety.{
  neutral, disabled_is_neutral, rudder_moves, winch_ordered, winch_moves, ballast_moves,
  servos_obey_modes,
}
use boat.Control.Scamp.Limits.{winch_stops_at_ends, position_for, zero_volts, twelve}

abbrev begun : Scamp ints
unfolding start
begun = start ints none

abbrev orders : Modes
orders = record { winch_mode = none; rudder_mode = some auto; ballast_mode = none }

abbrev stop : Modes
stop = record { winch_mode = none; rudder_mode = some disable; ballast_mode = none }

disabled_is_neutral_example :
    (neutral ints begun.rudder_mode begun.raw_rudder ≡ pos 90)
    × (neutral ints begun.winch_mode begun.raw_winch ≡ pos 90)
    × (neutral ints begun.ballast_mode begun.raw_ballast ≡ pos 90)
unfolding start
disabled_is_neutral_example =
    disabled_is_neutral ints none
      (control_mode orders ∷ rudder_cmd (some (pos 4)) ∷ control_mode stop ∷ []) {s = begun}
      (unfold run step on_control_mode on_rudder_cmd set_raw_from_rudder_cmd in refl)

-- An order to the rudder in automatic mode.
abbrev steer : Event ints
steer = rudder_cmd (some (pos 4))

abbrev helmed : Scamp ints
unfolding start
helmed = record begun { rudder_mode = auto }

abbrev steered : Scamp ints
unfolding start
steered = record helmed { raw_rudder = pos 810 }

servos_obey_modes_example :
    ((if rudder_moves helmed.rudder_mode steer then helmed.raw_rudder else steered.raw_rudder)
      ≡ helmed.raw_rudder)
    × (((if winch_ordered helmed.winch_mode steer then helmed.volts_winch else steered.volts_winch)
          ≡ helmed.volts_winch)
        × ((if winch_moves helmed.winch_mode steer then helmed.raw_winch else steered.raw_winch)
            ≡ helmed.raw_winch))
    × ((if ballast_moves helmed.ballast_mode steer then helmed.raw_ballast else steered.raw_ballast)
        ≡ helmed.raw_ballast)
unfolding start ◌+ℤ◌ ◌*ℤ◌
servos_obey_modes_example =
    servos_obey_modes ints steer helmed {t = steered} {out = []}
      (unfold step on_rudder_cmd set_raw_from_rudder_cmd in refl)

abbrev let_out_s : Scamp ints
unfolding start
let_out_s = record begun { sail_pos = pos 5 }

winch_stops_at_ends_example :
    (w : ℤ) × ((set_raw_from_sail_cmd ints (pos 20) let_out_s).raw_winch
      ≡ position_for ints ints-IsOrdered w let_out_s)
    × (let let_out =
          ints.le (or_default ints let_out_s.consts.winch_out_angle) let_out_s.sail_pos in
        ((ints.lt (twelve ints ints-IsOrdered) w ≡ false)
          × (ints.lt w (ints.neg (twelve ints ints-IsOrdered)) ≡ false))
        × ((if let_out then ints.lt (zero_volts ints ints-IsOrdered) w else false) ≡ false)
        × ((if let_out
              then false
              else if ints.le let_out_s.sail_pos (zero_volts ints ints-IsOrdered)
              then ints.lt w (zero_volts ints ints-IsOrdered)
              else false)
            ≡ false))
unfolding start
winch_stops_at_ends_example = winch_stops_at_ends ints ints-IsOrdered (pos 20) let_out_s

-- ===== src/RigidWing/Tests.antt =====
-- Instances for the messages of the rigid wing (rigid_wing/rigid_wing.cc), over whole numbers.
use boat.Prelude.{◌≡◌, some, arith}
use boat.Prelude.Int.{pos}
use boat.Prelude.Floats.Whole.{ints}
use boat.RigidWing.{angle_of, volts_of, parse_message}
use boat.RigidWing.Parse.{printed, parse-printed}

parse-printed_example : parse_message ints (printed 12 50 987) 13 ≡ record {
  angle_of_attack = some (angle_of ints (pos 12));
  servo_pos = some (pos 50);
  battery = some (volts_of ints (pos 987));
}
parse-printed_example = parse-printed ints 12 50 987 (omega arith) (omega arith) (omega arith)

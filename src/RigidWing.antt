-- ===== src/RigidWing.antt =====
-- `RigidWing::ParseMessage` of rigid_wing/rigid_wing.cc. A `char` is its value as an integer.
pub mod Parse
mod Tests
use boat.Prelude.{
  ℕ, zero, suc, ◌+◌, List, [], ◌∷◌, Option, none, some, Bool, not, ◌==◌, if◌then◌else◌, get_or,
  length,
}
use boat.Prelude.Int.{ℤ, pos, negsuc, ◌+ℤ◌, ◌-ℤ◌, ◌*ℤ◌}
use boat.Prelude.Floats.{Floats}
use boat.Control.Util.{norm_angle}

abbrev pub buf_len : ℕ
buf_len = 13

pub is_open : ℤ → Bool
is_open (pos c) = c == 0x5b
is_open (negsuc c) = 0 == 1

-- The loop of `atoi`: `len` characters from the place `a` on, behind a number.
pub atoi_from : List ℤ → ℕ → ℕ → ℤ → ℤ
atoi_from buf a zero retval = retval
atoi_from buf a (suc len) retval =
    atoi_from buf (a + 1) len ((retval *ℤ pos 10) +ℤ (get_or buf a (pos 0) -ℤ pos 0x30))

pub atoi : List ℤ → ℕ → ℕ → ℤ
atoi buf a len = atoi_from buf a len (pos 0)

module _ (fl : Floats) where
  open fl use {F, mul, div, narrow, of_int, literal, pi}

  -- `msg::RigidWingFeedback`.
  pub record Feedback : Type 0 where
    pub angle_of_attack : Option F
    pub servo_pos : Option ℤ
    pub battery : Option F

  abbrev pub cleared_feedback : Feedback
  cleared_feedback = record { angle_of_attack = none; servo_pos = none; battery = none }

  -- `ToRad` on a float.
  abbrev pub to_rad : F → F
  to_rad a = narrow (div (mul a pi) (literal 180 1))

  abbrev pub angle_of : ℤ → F
  angle_of n = narrow (norm_angle fl (to_rad (narrow (of_int n))))

  abbrev pub volts_of : ℤ → F
  volts_of n = narrow (div (narrow (of_int n)) (literal 1000 1))

  -- A missing end of the message is logged only.
  pub parse_message : List ℤ → ℕ → Feedback
  parse_message buf n =
      if not (n == buf_len)
      then cleared_feedback
      else if not (is_open (get_or buf 0 (pos 0)))
      then cleared_feedback
      else record {
        angle_of_attack = some (angle_of (atoi buf 1 3));
        servo_pos = some (atoi buf 5 3);
        battery = some (volts_of (atoi buf 9 3));
      }

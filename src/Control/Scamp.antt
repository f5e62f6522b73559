-- ===== src/Control/Scamp.antt =====
-- `SCAMP` of control/scamp.h and control/scamp.cc, the node that drives the servos: its state, and
-- how commands are turned into positions of the servos.
pub mod Handlers
pub mod Safety
pub mod Channels
pub mod Limits
mod Tests
use boat.Prelude.{
  ℕ, zero, suc, ◌+◌, ◌-◌, ◌*◌, ◌^◌, ◌%◌, Bool, true, false, Option, none, some, List, [], ◌∷◌, ltb,
  leb, ◌==◌, if◌then◌else◌,
}
use boat.Prelude.Int.{ℤ, pos, negsuc, ◌-ℤ◌, ltb_ℤ}
use boat.Prelude.Floats.{Floats, fmin, fmax, clip}
use boat.Control.Waypoint.{Mode, disable}

abbrev pub or_zero : Option ℤ → ℤ
or_zero none = pos 0
or_zero (some n) = n

-- A field of type `uint32` that is set to an `int`.
abbrev pub to_u32 : ℤ → ℕ
to_u32 (pos n) = n % 2 ^ 32
to_u32 (negsuc n) = (2 ^ 32 - 1) - n % 2 ^ 32

-- The modes in a `msg::ControlMode` that this node reads.
pub record Modes : Type 0 where
  pub winch_mode : Option Mode
  pub rudder_mode : Option Mode
  pub ballast_mode : Option Mode

module _ (fl : Floats) where
  open fl use {F, add, sub, mul, div, neg, lt, le, narrow, trunc, of_int, literal, pi, abs}

  abbrev pub number : ℕ → F
  number n = literal n 1

  abbrev pub or_default : Option F → F
  or_default none = number 0
  or_default (some a) = a

  -- `msg::ZeroingConstants`.
  pub record Consts : Type 0 where
    pub rudder_zero : Option ℤ
    pub winch_0_pot : Option ℤ
    pub winch_90_pot : Option ℤ
    pub ballast_zero : Option F
    pub winch_out_angle : Option F
    pub write_constants : Bool

  -- `msg::InternalBoatState`, less the rates, which this node never sets.
  pub record InternalState : Type 0 where
    pub sail : Option F
    pub rudder : Option F
    pub ballast : Option F

  -- `msg::BallastCmd`.
  pub record BallastCmd : Type 0 where
    pub vel : Option F
    pub voltage : Option F

  pub data Output : Type 0 where
    internal_state : InternalState → Output
    pwm : ℕ → ℕ → ℕ → Output
    zeroing_consts : Consts → Output
    written : Consts → Output

  pub record Scamp : Type 0 where
    pub consts : Consts
    pub state_msg : InternalState
    pub sail_pos : F
    pub ballast_pos : F
    pub raw_winch : ℤ
    pub volts_winch : ℤ
    pub raw_rudder : ℤ
    pub raw_ballast : ℤ
    pub rudder_mode : Mode
    pub winch_mode : Mode
    pub ballast_mode : Mode
    pub is_connected : Bool

  -- What is set where the file of constants cannot be read.
  abbrev pub default_consts : Consts
  default_consts = record {
    rudder_zero = some (pos 90);
    winch_0_pot = some (pos 392);
    winch_90_pot = some (pos 750);
    ballast_zero = some (neg (literal 1775 1000));
    winch_out_angle = some (div pi (number 2));
    write_constants = false;
  }

  -- The constructor, with what it reads from the file.
  pub start : Option Consts → Scamp
  start file = record {
    consts = elim file [ none ↦ default_consts | some c ↦ c ];
    state_msg = record { sail = none; rudder = none; ballast = none };
    sail_pos = number 0;
    ballast_pos = number 0;
    raw_winch = pos 90;
    volts_winch = pos 90;
    raw_rudder = pos 90;
    raw_ballast = pos 90;
    rudder_mode = disable;
    winch_mode = disable;
    ballast_mode = disable;
    is_connected = true;
  }

  unfoldable pub sbus_to_raw : ℤ → ℤ
  sbus_to_raw sbus =
      trunc
        (add (div (mul (sub (of_int sbus) (number 1023)) (number 90)) (number 1000)) (number 90))

  -- The position of the winch for a voltage: not beyond an end of its range, none below a volt, and
  -- 12 volts at most.
  pub at_ends : F → Scamp → F
  at_ends volts s =
      if le (or_default s.consts.winch_out_angle) s.sail_pos
      then fmin fl volts (number 0)
      else if le s.sail_pos (number 0)
      then fmax fl volts (number 0)
      else volts

  pub permitted : F → F
  permitted volts =
      let live = if lt (abs volts) (number 1) then number 0 else volts in
      fmin fl (fmax fl live (neg (number 12))) (number 12)

  pub set_raw_from_sail_cmd : F → Scamp → Scamp
  unfolding at_ends permitted
  set_raw_from_sail_cmd volts s =
      let up = ltb_ℤ (or_zero s.consts.winch_0_pot) (or_zero s.consts.winch_90_pot) in
      let sign = if up then neg (number 1) else number 1 in
      let turned = narrow (mul (permitted (at_ends volts s)) sign) in
      record s { raw_winch = trunc (add (mul (div turned (number 12)) (number 90)) (number 90)) }

  pub set_raw_from_rudder_cmd : F → Scamp → Scamp
  set_raw_from_rudder_cmd position s = record s {
    raw_rudder =
        trunc (add (mul (div position pi) (number 180)) (of_int (or_zero s.consts.rudder_zero)));
  }

  pub ballast_volts : F → Scamp → F
  ballast_volts voltage s =
      let volts = clip fl voltage (neg (number 12)) (number 12) in
      if le (literal 11 10) s.ballast_pos
      then fmin fl volts (number 0)
      else if le s.ballast_pos (neg (literal 11 10))
      then fmax fl volts (number 0)
      else volts

  pub set_raw_from_ballast_cmd : BallastCmd → Scamp → Scamp
  unfolding ballast_volts
  set_raw_from_ballast_cmd cmd s = elim cmd.vel [
    | some vel ↦ record s { raw_ballast = trunc (narrow (add vel (number 90))) }
    | none ↦ elim cmd.voltage [
      | some voltage ↦ record s {
        raw_ballast =
            trunc (add (div (mul (ballast_volts voltage s) (number 90)) (number 12)) (number 90));
      }
      | none ↦ s
    ]
  ]

  unfoldable pub winch_pot_to_angle : F → Scamp → F
  winch_pot_to_angle pot_val s =
      let zero_pot = or_zero s.consts.winch_0_pot in
      let pot_range = or_zero s.consts.winch_90_pot -ℤ zero_pot in
      let part =
        narrow
          (div (narrow (sub pot_val (narrow (of_int zero_pot)))) (narrow (of_int pot_range))) in
      narrow (mul part (or_default s.consts.winch_out_angle))

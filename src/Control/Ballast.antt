-- ===== src/Control/Ballast.antt =====
-- `BallastControl` of control/ballast.h and control/ballast.cc, the node that swings the ballast to
-- hold a goal: its state, its handlers, and `Iterate`.
pub mod Voltage
mod Tests
use boat.Prelude.{
  ℕ, suc, ◌+◌, ◌%◌, Bool, true, false, not, ◌&&◌, ◌||◌, Option, none, some, List, [], ◌∷◌, ◌++◌,
  ◌==◌, if◌then◌else◌,
}
use boat.Prelude.Int.{ℤ, ltb_ℤ}
use boat.Prelude.Floats.{Floats, fmin, fmax, clip}
use boat.Control.Util.{norm_angle, sign}
use boat.Control.Waypoint.{Mode, HeadingCmd}

module _ (fl : Floats) where
  open fl use {F, add, sub, mul, neg, lt, le, narrow, literal, abs}

  -- `msg::ControllerConstants`, less the fields that this node does not read.
  pub record Gains : Type 0 where
    pub heel_kp : Option F
    pub heel_ki : Option F
    pub heel_kd : Option F
    pub heel_kff_goal : Option F
    pub arm_kp : Option F
    pub arm_kd : Option F
    pub arm_kff_arm : Option F
    pub arm_kff_heel : Option F

  pub data Output : Type 0 where
    ballast_cmd : F → Output
    control_consts : Gains → Output

  pub record Ballast : Type 0 where
    pub consts : Gains
    pub heel_goal : F
    pub heel : F
    pub heel_dot : F
    pub ballast : F
    pub ballast_dot : F
    pub heel_error_integrator : F
    pub last_voltage : F
    pub counter : ℕ

  abbrev pub zero_F : F
  zero_F = literal 0 1

  abbrev or_default : Option F → F
  or_default none = zero_F
  or_default (some a) = a

  abbrev has : Option F → Bool
  has none = false
  has (some a) = true

  -- `a == 0`, which is false for what is not a number.
  abbrev pub is_zero_F : F → Bool
  is_zero_F a = le a zero_F && le zero_F a

  -- The constructor, with the constants that it sends.
  pub start : Ballast × List Output
  start =
      let consts : Gains = record {
        heel_kp = some (narrow (literal 25 100));
        heel_ki = some (narrow (literal 5 100));
        heel_kd = some zero_F;
        heel_kff_goal = some (narrow (literal 1 10));
        arm_kp = some (literal 40 1);
        arm_kd = some zero_F;
        arm_kff_arm = some zero_F;
        arm_kff_heel = some zero_F;
      } in
      (
        record {
          consts = consts;
          heel_goal = zero_F;
          heel = zero_F;
          heel_dot = zero_F;
          ballast = zero_F;
          ballast_dot = zero_F;
          heel_error_integrator = zero_F;
          last_voltage = zero_F;
          counter = 0;
        },
        control_consts consts ∷ [],
      )

  -- Constants are taken over whole, if all are there; another integral gain resets the integrator.
  pub on_control_consts : Gains → Ballast → Ballast
  on_control_consts msg s =
      if has msg.heel_kp
        && has msg.heel_ki
        && has msg.heel_kd
        && has msg.arm_kp
        && has msg.arm_kd
        && has msg.arm_kff_arm
        && has msg.arm_kff_heel
        && has msg.heel_kff_goal
      then record s {
        consts = msg;
        heel_error_integrator =
            if lt (literal 1 1000)
              (abs (narrow (sub (or_default msg.heel_ki) (or_default s.consts.heel_ki))))
            then zero_F
            else s.heel_error_integrator;
      }
      else s

  pub on_control_mode : Option Mode → Ballast → Ballast
  on_control_mode none s = s
  on_control_mode (some m) s = record s { heel_error_integrator = zero_F }

  abbrev differ : ℤ → ℤ → Bool
  differ a b = ltb_ℤ a b || ltb_ℤ b a

  -- A new goal: the integrator is reset at zero, and turned around with the sign.
  pub on_heading_cmd : HeadingCmd fl → Ballast → Ballast
  on_heading_cmd msg s = elim msg.heading [
    | none ↦ s
    | some cmd ↦ record s {
      heel_goal = cmd;
      heel_error_integrator =
          if is_zero_F cmd
          then zero_F
          else if differ (sign fl cmd) (sign fl s.heel_goal)
          then neg s.heel_error_integrator
          else s.heel_error_integrator;
    }
  ]

  -- `boat_state`: yaw and its rate, and the position and the rate of the ballast.
  pub on_boat_state : F → F → F → F → Ballast → Ballast
  on_boat_state yaw omega_z position rate s = record s {
    heel = yaw;
    heel_dot = omega_z;
    ballast = position;
    ballast_dot = rate;
  }

  unfoldable pub heel_error : Ballast → F
  heel_error s = norm_angle fl (sub s.heel_goal s.heel)

  pub integrated : Ballast → F
  integrated s =
      clip fl (add s.heel_error_integrator (mul (heel_error s) (narrow (literal 1 100))))
        (neg (literal 5 1)) (literal 5 1)

  unfoldable pub ballast_goal : Ballast → F
  ballast_goal s =
      let c = s.consts in
      let p = mul (or_default c.heel_kp) (heel_error s) in
      let i = mul (or_default c.heel_ki) (integrated s) in
      let d = mul (or_default c.heel_kd) (neg s.heel_dot) in
      let ff = mul (or_default c.heel_kff_goal) s.heel_goal in
      clip fl (add (add (add p i) d) ff) (neg (literal 12 10)) (literal 12 10)

  -- The error behind a dead band that has no width.
  unfoldable pub ballast_error : Ballast → F
  ballast_error s =
      let e = sub (ballast_goal s) s.ballast in
      if lt zero_F e then fmax fl zero_F (sub e zero_F) else fmin fl zero_F (add e zero_F)

  pub clipped_voltage : Ballast → F
  clipped_voltage s =
      let c = s.consts in
      let p = mul (or_default c.arm_kp) (ballast_error s) in
      let d = mul (or_default c.arm_kd) (neg s.ballast_dot) in
      let arm = mul (or_default c.arm_kff_arm) s.ballast in
      let heel = mul (or_default c.arm_kff_heel) s.heel in
      clip fl (sub (sub (add p d) arm) heel) (neg (literal 12 1)) (literal 12 1)

  -- The least voltage that is applied, which is larger while the ballast stands.
  unfoldable pub voltage_deadband : Ballast → F
  voltage_deadband s = if is_zero_F s.last_voltage then literal 35 10 else literal 15 10

  pub ballast_voltage : Ballast → F
  ballast_voltage s =
      if lt (abs (ballast_error s)) (literal 1 1000)
        || lt (literal 15 10) (abs s.ballast)
        || lt (abs (clipped_voltage s)) (voltage_deadband s)
      then zero_F
      else clipped_voltage s

  pub iterate : Ballast → Ballast × List Output
  iterate s =
      let t = record s {
        heel_error_integrator = integrated s;
        last_voltage = ballast_voltage s;
        counter = s.counter + 1;
      } in
      (
        t,
        ballast_cmd (narrow t.last_voltage)
            ∷ (if t.counter % 110 == 0 then control_consts t.consts ∷ [] else []),
      )

  pub data Event : Type 0 where
    consts_msg : Gains → Event
    control_mode : Option Mode → Event
    heading_cmd : HeadingCmd fl → Event
    boat_state : F → F → F → F → Event
    tick : Event

  pub step : Event → Ballast → Ballast × List Output
  step (consts_msg c) s = (on_control_consts c s, [])
  step (control_mode m) s = (on_control_mode m s, [])
  step (heading_cmd h) s = (on_heading_cmd h s, [])
  step (boat_state yaw omega_z position rate) s = (on_boat_state yaw omega_z position rate s, [])
  step tick s = iterate s

  pub run : List Event → Ballast → Ballast × List Output
  run [] s = (s, [])
  run (e ∷ es) s = let (t, out) = step e s in let (u, out') = run es t in (u, out ++ out')

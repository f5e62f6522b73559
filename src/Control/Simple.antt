-- ===== src/Control/Simple.antt =====
-- `SimpleControl` of control/simple.h and control/simple.cc, the node that steers to a heading: its
-- state, its handlers, and `Iterate` in two parts, what is computed and what is sent.
pub mod Rates
pub mod Rudder
mod Tests
use boat.Prelude.{
  ℕ, suc, ◌+◌, ◌%◌, Bool, true, false, not, ◌&&◌, Option, none, some, List, [], ◌∷◌, ◌++◌, ltb,
  ◌==◌, if◌then◌else◌, get_elem?,
}
use boat.Prelude.Int.{ℤ, pos}
use boat.Prelude.Floats.{Floats, fmin, fmax, clip}
use boat.Control.Util.{norm_angle, sign}
use boat.Control.Waypoint.{Mode, auto, HeadingCmd}

abbrev is_auto : Mode → Bool
is_auto auto = true
is_auto m = false

module _ (fl : Floats) where
  open fl use {F, add, sub, mul, div, neg, lt, narrow, trunc, of_int, literal, pi, abs, sqrt, atan2}

  -- `msg::ControllerConstants`, less the fields that this node does not read.
  pub record Constants : Type 0 where
    pub max_rudder : Option F
    pub rudder_kp : Option F
    pub rudder_ki : Option F
    pub winch_kp : Option F
    pub sail_heel_k : Option F
    pub nominal_heel : Option F
    pub rigid_port_servo_pos : Option F
    pub rigid_starboard_servo_pos : Option F

  -- What is read of `msg::BoatState`.
  pub record BoatState : Type 0 where
    pub vel_x : F
    pub vel_y : F
    pub yaw : F
    pub roll : F
    pub sail : F
    pub rudder : F

  pub data Output : Type 0 where
    sail_cmd : F → F → Output
    rudder_cmd : F → F → Output
    heel_cmd : F → Output
    rigid_wing_cmd : Option ℤ → Output
    control_consts : Constants → Output

  pub record Simple : Type 0 where
    pub do_rudder : Bool
    pub counter : ℕ
    pub heading : F
    pub extra_sail : F
    pub wind_x : F
    pub wind_y : F
    pub auto_rigid_wing : Bool
    pub rudder_integrator : F
    pub servo_pos : Option ℤ
    pub boat_state : BoatState
    pub consts : Constants

  abbrev zero_F : F
  zero_F = literal 0 1

  abbrev or_default : Option F → F
  or_default none = zero_F
  or_default (some a) = a

  abbrev float : ℕ → ℕ → F
  float p q = narrow (literal p q)

  -- The constructor, with the constants that it sends.
  pub start : Bool → Simple × List Output
  start do_rudder =
      let consts : Constants = record {
        max_rudder = some (float 1 2);
        rudder_kp = some (float 1 2);
        rudder_ki = some (float 2 100);
        winch_kp = some (float 13 1);
        sail_heel_k = some zero_F;
        nominal_heel = some zero_F;
        rigid_port_servo_pos = some (float 15 1);
        rigid_starboard_servo_pos = some (float 85 1);
      } in
      (
        record {
          do_rudder = do_rudder;
          counter = 0;
          heading = zero_F;
          extra_sail = zero_F;
          wind_x = zero_F;
          wind_y = zero_F;
          auto_rigid_wing = true;
          rudder_integrator = zero_F;
          servo_pos = none;
          boat_state = record {
            vel_x = zero_F;
            vel_y = zero_F;
            yaw = zero_F;
            roll = zero_F;
            sail = zero_F;
            rudder = zero_F;
          };
          consts = consts;
        },
        control_consts consts ∷ [],
      )

  abbrev has : Option F → Bool
  has none = false
  has (some a) = true

  -- Constants are taken over whole, and only if those that are needed are there.
  pub on_control_consts : Constants → Simple → Simple
  on_control_consts msg s =
      if has msg.max_rudder
        && has msg.rudder_kp
        && has msg.winch_kp
        && has msg.sail_heel_k
        && has msg.rigid_port_servo_pos
        && has msg.rigid_starboard_servo_pos
        && has msg.nominal_heel
      then record s { consts = msg }
      else s

  -- Every heading command resets the integrator.
  pub on_heading_cmd : HeadingCmd fl → Simple → Simple
  on_heading_cmd msg s = record s {
    heading = elim msg.heading [ none ↦ s.heading | some h ↦ h ];
    extra_sail = elim msg.extra_sail [ none ↦ s.extra_sail | some e ↦ e ];
    rudder_integrator = zero_F;
  }

  pub on_control_mode : Option Mode → Simple → Simple
  on_control_mode none s = s
  on_control_mode (some m) s = record s { auto_rigid_wing = is_auto m }

  -- `none` is a message without a second channel.
  pub on_sbus : List ℤ → Simple → Option Simple
  on_sbus channel s = elim (get_elem? channel 1) [
    | none ↦ none
    | some c ↦ some (record s {
      servo_pos = some (trunc (div (mul (of_int c) (literal 100 1)) (literal 2050 1)));
    })
  ]

  unfoldable pub heading_err : Simple → F
  heading_err s = norm_angle fl (narrow (sub s.heading s.boat_state.yaw))

  unfoldable pub alphaw : Simple → F
  alphaw s = narrow (norm_angle fl (narrow (atan2 s.wind_y (neg s.wind_x))))

  unfoldable pub wind_source_dir : Simple → F
  wind_source_dir s = narrow (atan2 (neg s.wind_y) (neg s.wind_x))

  -- The angle for the sail.
  unfoldable pub sail_goal : Simple → F
  sail_goal s =
      let side = if lt zero_F (alphaw s) then literal 1 1 else neg (literal 1 1) in
      let turn = clip fl (heading_err s) (neg (literal 1 2)) (literal 1 2) in
      let turning_sail = mul (mul side (literal 9 10)) turn in
      let open_angle =
        fmin fl (fmax fl (sub (abs (alphaw s)) (literal 8 10)) zero_F) (literal 3 2) in
      let heeling = narrow (mul (or_default s.consts.sail_heel_k) (abs s.boat_state.roll)) in
      narrow (add (add (add open_angle heeling) s.extra_sail) turning_sail)

  unfoldable pub sail_voltage : Simple → F
  sail_voltage s =
      let sail_err = narrow (norm_angle fl (narrow (sub (sail_goal s) s.boat_state.sail))) in
      narrow
        (div (narrow (mul (or_default s.consts.winch_kp) sail_err)) (narrow (sqrt (abs sail_err))))

  pub max_rudder_at : Simple → F
  max_rudder_at s =
      let b = s.boat_state in
      let vel =
        narrow
          (sqrt (narrow (add (narrow (mul b.vel_x b.vel_x)) (narrow (mul b.vel_y b.vel_y))))) in
      if lt vel zero_F
      then literal 3 10
      else if lt vel (literal 1 1)
      then or_default s.consts.max_rudder
      else mul (literal 8 10) (or_default s.consts.max_rudder)

  pub integrated : Simple → F
  integrated s =
      clip fl (add s.rudder_integrator (mul (heading_err s) (float 1 100))) (neg (literal 3 2))
        (literal 3 2)

  pub clipped_rudder : Simple → F
  clipped_rudder s =
      let p = mul (or_default s.consts.rudder_kp) (heading_err s) in
      let i = mul (or_default s.consts.rudder_ki) (integrated s) in
      clip fl (add p i) (neg (max_rudder_at s)) (max_rudder_at s)

  pub goal_rudder : Simple → F
  goal_rudder s = neg (clipped_rudder s)

  -- What `Iterate` changes: the counter, the integrator and the servo of the rigid wing.
  pub updated : Simple → Simple
  updated s = record s {
    counter = s.counter + 1;
    rudder_integrator = integrated s;
    servo_pos =
        if s.auto_rigid_wing
        then (if lt zero_F (wind_source_dir s)
            then some (trunc (or_default s.consts.rigid_port_servo_pos))
            else some (trunc (or_default s.consts.rigid_starboard_servo_pos)))
        else s.servo_pos;
  }

  abbrev pub only : Bool → Output → List Output
  only b o = if b then o ∷ [] else []

  unfoldable pub heel_goal : Simple → F
  heel_goal s =
      add (mul (or_default s.consts.nominal_heel) (of_int (sign fl (wind_source_dir s))))
        (mul zero_F (clip fl (mul (literal 1 1) (heading_err s)) (neg (literal 1 4)) (literal 1 4)))

  pub iterate : Simple → Simple × List Output
  iterate s =
      let t = updated s in
      let rudder = goal_rudder s in
      (
        t,
        sail_cmd (sail_voltage s) (sail_goal s)
            ∷ (only (s.auto_rigid_wing && t.counter % 10 == 0) (rigid_wing_cmd t.servo_pos)
                ++ (only s.do_rudder (
                      rudder_cmd (narrow rudder)
                        (narrow (mul (literal 1 1) (sub rudder s.boat_state.rudder))))
                    ++ (only (lt (literal 14 10) (abs (alphaw s))) (heel_cmd (narrow (heel_goal s)))
                        ++ only (t.counter % 100 == 0) (control_consts s.consts)))),
      )

  pub data Event : Type 0 where
    boat_state_msg : BoatState → Event
    consts_msg : Constants → Event
    wind : F → F → Event
    heading_cmd : HeadingCmd fl → Event
    control_mode : Option Mode → Event
    sbus_value : List ℤ → Event
    tick : Event

  pub step : Event → Simple → Option (Simple × List Output)
  step (boat_state_msg b) s = some (record s { boat_state = b }, [])
  step (consts_msg c) s = some (on_control_consts c s, [])
  step (wind x y) s = some (record s { wind_x = x; wind_y = y }, [])
  step (heading_cmd h) s = some (on_heading_cmd h s, [])
  step (control_mode m) s = some (on_control_mode m s, [])
  step (sbus_value c) s = elim (on_sbus c s) [ none ↦ none | some t ↦ some (t, []) ]
  step tick s = some (iterate s)

  abbrev pub after : List Output → Option (Simple × List Output) → Option (Simple × List Output)
  after out none = none
  after out (some (t, out')) = some (t, out ++ out')

  abbrev pub and_then :
      Option (Simple × List Output)
      → (Simple → Option (Simple × List Output))
      → Option (Simple × List Output)
  and_then none f = none
  and_then (some (t, out)) f = after out (f t)

  pub run : List Event → Simple → Option (Simple × List Output)
  run [] s = some (s, [])
  run (e ∷ es) s = and_then (step e s) (run es)

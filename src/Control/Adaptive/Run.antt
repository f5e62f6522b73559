-- ===== src/Control/Adaptive/Run.antt =====
-- `AdaptiveControl` of control/adaptive.h and control/adaptive.cc: the adaption of the boat's
-- constants, the reference for the yaw, the handlers and `Iterate`. `dot` is the sum of products that
-- Eigen forms.
pub mod Ranges
mod Tests
use boat.Prelude.{Bool, true, false, List, [], ◌∷◌, ◌++◌, map, Option, none, some, if◌then◌else◌}
use boat.Prelude.Floats.{Floats, clip}
use boat.Control.Util.{norm_angle}
use boat.Control.Adaptive.{num, half, BoatConstants, default_constants}
use boat.Control.Adaptive.Parameters.{increment_beta, Net, net_force}
use boat.Control.Adaptive.Search.{
  Physics, Conditions, quadratic, Found, global_max_force_for_torque,
}

module _ (fl : Floats) (dot : List fl.F → List fl.F → fl.F) where
  open fl use {F, add, sub, mul, div, neg, lt, narrow, literal, pi, abs, sqrt, atan2}

  abbrev zero_F : F
  zero_F = num fl 0

  -- The fields of `msg::ControllerConstants` that this node reads.
  pub record Consts : Type 0 where
    pub winch_kp : Option F
    pub rudder_kp : Option F
    pub qf : Option F

  pub record Adaptive : Type 0 where
    pub physics : Physics fl
    pub kbeta : List (List F)
    pub consts : Consts
    pub sail : F
    pub heading : F
    pub yaw : F
    pub thetaw : F
    pub vw : F
    pub thetac : F
    pub vc : F
    pub omega : F
    pub yaw_ref : F
    pub omega_ref : F

  pub data Output : Type 0 where
    sail_cmd : F → F → Output
    rudder_cmd : F → Output
    control_consts : Consts → Output

  abbrev or_default : Option F → F
  or_default none = zero_F
  or_default (some a) = a

  abbrev kref : F
  kref = literal 99 100

  abbrev kmax_exp_vel : F
  kmax_exp_vel = literal 2 10

  abbrev kmax_exp_acc : F
  kmax_exp_acc = literal 2 10

  abbrev dt : F
  dt = narrow (literal 5 100)

  -- A row of `-Kbeta * Y.transpose() * sigma`.
  abbrev row_by : Net fl dot → List F → List F → F
  row_by y sigma row = let r = map neg row in dot (dot r y.y_flon ∷ dot r y.y_tau ∷ []) sigma

  pub adaptor : Adaptive → F → F → List F
  unfolding net_force
  adaptor s deltas deltar =
      let y = net_force fl dot s.physics.consts s.thetaw s.vw s.thetac s.vc deltas deltar zero_F in
      let errors = zero_F ∷ norm_angle fl (narrow (sub s.yaw_ref s.yaw)) ∷ [] in
      let sigma =
        add zero_F (dot (num fl 1 ∷ zero_F ∷ []) errors)
        ∷ add (narrow (sub s.omega_ref s.omega)) (dot (zero_F ∷ num fl 1 ∷ []) errors)
        ∷ [] in
      map (row_by y sigma) s.kbeta

  pub update_yaw_ref : Adaptive → Adaptive
  update_yaw_ref s =
      let turned = norm_angle fl (narrow (sub s.yaw_ref s.yaw)) in
      let yaw1 = narrow (norm_angle fl (add (mul kref turned) s.yaw)) in
      let omega1 = narrow (add (mul kref s.omega_ref) (mul (sub (num fl 1) kref) s.omega)) in
      let expected_vel = norm_angle fl (narrow (sub s.heading yaw1)) in
      let exp_vel = clip fl expected_vel (neg kmax_exp_vel) kmax_exp_vel in
      let expected_acc = norm_angle fl (sub exp_vel omega1) in
      let exp_acc = clip fl expected_acc (neg kmax_exp_acc) kmax_exp_acc in
      let step = narrow (add yaw1 (narrow (mul omega1 dt))) in
      let (yaw2, omega2) =
        if lt kmax_exp_vel zero_F
        then (s.heading, omega1)
        else if lt kmax_exp_acc zero_F
        then (narrow (add yaw1 (mul exp_vel dt)), omega1)
        else (
          narrow (add step (mul (mul (mul (half fl) exp_acc) dt) dt)),
          narrow (add omega1 (mul exp_acc dt)),
        ) in
      record s { yaw_ref = narrow (norm_angle fl yaw2); omega_ref = omega2 }

  abbrev pub conditions : Adaptive → Conditions fl
  conditions s = record {
    thetaw = s.thetaw;
    vw = s.vw;
    thetac = s.thetac;
    vc = s.vc;
    taug =
        sub (mul (or_default s.consts.rudder_kp) (norm_angle fl (narrow (sub s.heading s.yaw))))
          (mul (num fl 15) s.omega);
  }

  abbrev pub angles_or : F × F → Option (F × F) → F × F
  angles_or unset none = unset
  angles_or unset (some a) = a

  abbrev pub change : Adaptive → F × F → List F
  change s (deltas, deltar) = map (λ d. mul d dt) (adaptor s deltas deltar)

  abbrev adapted : Adaptive → F × F → Adaptive
  adapted s angles =
      let ph = s.physics in
      update_yaw_ref (record s {
        physics = record ph { consts = increment_beta fl dot (change s angles) ph.consts };
      })

  abbrev pub searched : F → Adaptive → Found fl
  searched infinity s =
      global_max_force_for_torque fl infinity s.physics (conditions s) quadratic 20

  -- The two angles, if there are any; those that the search does not set are what the memory held.
  pub controller : F → F × F → Adaptive → Option (F × F) × Adaptive
  unfolding adaptor update_yaw_ref increment_beta
  controller infinity unset s =
      let f = searched infinity s in
      let angles = angles_or unset f.angles in
      if f.success then (some angles, adapted s angles) else (none, s)

  -- The orders to the sail and to the rudder.
  pub orders : F → F → Adaptive → List Output
  orders deltas deltar s =
      let pos = abs deltas in
      let sail_err = norm_angle fl (sub pos s.sail) in
      let voltage = div (mul (or_default s.consts.winch_kp) sail_err) (sqrt (abs sail_err)) in
      sail_cmd (narrow voltage) (narrow pos)
      ∷ rudder_cmd (narrow (clip fl deltar (neg (half fl)) (half fl)))
      ∷ control_consts s.consts
      ∷ []

  pub iterate : F → F × F → Adaptive → Adaptive × List Output
  unfolding controller orders
  iterate infinity unset s =
      let (angles, s') = controller infinity unset s in
      let (deltas, deltar) = angles_or (zero_F, zero_F) angles in (s', orders deltas deltar s')

  pub data Event : Type 0 where
    boat_state : F → F → F → F → F → Event
    wind : F → F → Event
    heading_cmd : Option F → Event
    consts_msg : Consts → Event
    tick : F × F → Event

  pub on_consts : Consts → Option F → Adaptive → Adaptive
  on_consts msg none s = s
  on_consts msg (some qf) s =
      let ph = s.physics in record s { consts = msg; physics = record ph { qf = qf } }

  abbrev with_heading : Option F → Adaptive → Adaptive
  with_heading none s = s
  with_heading (some h) s = record s { heading = h }

  -- A message, or an iteration with what the memory of its two angles holds.
  pub step : F → Event → Adaptive → Adaptive × List Output
  unfolding iterate on_consts
  step infinity (boat_state vx vy yaw omega sail) s = (
    record s {
      sail = sail;
      yaw = yaw;
      omega = omega;
      thetac = zero_F;
      vc = narrow (sqrt (add (mul vx vx) (mul vy vy)));
    },
    [],
  )
  step infinity (wind wx wy) s = (
    record s {
      thetaw = narrow (norm_angle fl (atan2 (neg wy) wx));
      vw = narrow (mul (sqrt (add (mul wy wy) (mul wx wx))) (literal 16 10));
    },
    [],
  )
  step infinity (heading_cmd h) s = (with_heading h s, [])
  step infinity (consts_msg msg) s = (on_consts msg msg.qf s, [])
  step infinity (tick unset) s = iterate infinity unset s

  pub run : F → List Event → Adaptive → Adaptive × List Output
  unfolding step
  run infinity [] s = (s, [])
  run infinity (e ∷ es) s =
      let (s1, out1) = step infinity e s in
      let (s2, out2) = run infinity es s1 in (s2, out1 ++ out2)

  abbrev first_consts : Consts
  first_consts = record {
    winch_kp = some (num fl 13);
    rudder_kp = some (num fl 25);
    qf = some (num fl 1);
  }

  -- The constructor, which sets only the diagonal of `Kbeta`: here is the whole matrix.
  pub start : List (List F) → Adaptive × List Output
  unfolding default_constants
  start kbeta = (
    record {
      physics = record {
        consts = default_constants fl;
        qf = num fl 1;
        qtaumax = literal 4 10;
        qtaueq = literal 4 100;
      };
      kbeta = kbeta;
      consts = first_consts;
      sail = zero_F;
      heading = narrow (div (mul (num fl 2) pi) (num fl 4));
      yaw = zero_F;
      thetaw = zero_F;
      vw = zero_F;
      thetac = zero_F;
      vc = zero_F;
      omega = zero_F;
      yaw_ref = zero_F;
      omega_ref = zero_F;
    },
    control_consts first_consts ∷ [],
  )

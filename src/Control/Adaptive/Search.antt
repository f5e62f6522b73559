-- ===== src/Control/Adaptive/Search.antt =====
-- `GlobalMaxForceForTorque` of control/adaptive.cc: the angle of the sail, tried at even steps, with
-- the angle of the rudder for the torque that is asked for.
pub mod Best
use boat.Prelude.{
  ℕ, zero, suc, ◌+◌, ◌-◌, max, Bool, true, false, not, ◌&&◌, Option, none, some, if◌then◌else◌,
}
use boat.Prelude.Int.{pos}
use boat.Prelude.Floats.{Floats, fmin, fmax, clip}
use boat.Control.Util.{norm_angle}
use boat.Control.Adaptive.{
  num, half, half_pi, BoatConstants, sail_force, keel_force, rudder_force, sail_torque, keel_torque,
  rudder_torque, calc_heel, rudder_for_torque, clip_rudder,
}

pub data Constraint : Type 0 where
  quadratic starboard port : Constraint

module _ (fl : Floats) where
  open fl use {F, add, sub, mul, div, neg, lt, le, of_int, pi, abs, cos, literal}

  -- `ControlPhysics`: the constants and the weights of the cost.
  pub record Physics : Type 0 where
    pub consts : BoatConstants fl
    pub qf : F
    pub qtaumax : F
    pub qtaueq : F

  -- What the boat is in: the wind, the current and the torque that is asked for.
  pub record Conditions : Type 0 where
    pub thetaw : F
    pub vw : F
    pub thetac : F
    pub vc : F
    pub taug : F

  abbrev equal : F → F → Bool
  equal a b = le a b && le b a

  -- The least and the greatest angle of the sail, and of the rudder.
  pub sail_range : F → F × F
  sail_range thetaw =
      let far = abs (norm_angle fl (sub pi thetaw)) in
      let minsail = fmax fl (sub far (half_pi fl)) (num fl 0) in
      let maxsail = fmin fl far (half_pi fl) in
      (
        if lt (num fl 0) thetaw then minsail else neg maxsail,
        if lt thetaw (num fl 0) then neg minsail else maxsail,
      )

  pub rudder_range : BoatConstants fl → F → F × F
  rudder_range b thetac =
      let r = b.rudder.maxalpha in
      (
        clip fl (sub (neg r) thetac) (neg (half fl)) (num fl 0),
        clip fl (sub r thetac) (num fl 0) (half fl),
      )

  -- A trial: the two angles and the cost.
  pub record Trial : Type 0 where
    pub deltas : F
    pub deltar : F
    pub cost : F

  abbrev constrained : Constraint → BoatConstants fl → F → F → F
  constrained quadratic b thetac dr = clip_rudder fl b dr thetac
  constrained starboard b thetac dr = fmax fl dr (rudder_range b thetac).1
  constrained port b thetac dr = fmin fl dr (rudder_range b thetac).0

  abbrev torque_cost : Physics → Constraint → F → F → F → F
  torque_cost ph quadratic cost taue taug =
      add cost (mul (mul ph.qtaueq (sub taue taug)) (sub taue taug))
  torque_cost ph starboard cost taue taug = add cost (mul ph.qtaumax taue)
  torque_cost ph port cost taue taug = add cost (mul (neg ph.qtaumax) taue)

  -- The round for one angle of the sail; `none` where the rudder cannot be turned so far.
  pub trial : Physics → Conditions → Constraint → F → Option Trial
  unfolding rudder_range sail_force keel_force rudder_force sail_torque keel_torque rudder_torque
      calc_heel rudder_for_torque clip_rudder
  trial ph w constraint trialds =
      let b = ph.consts in
      let (fs, gammas) = sail_force fl b w.thetaw w.vw trialds in
      let (fk, gammak) = keel_force fl b w.thetac w.vc in
      let heel = calc_heel fl b fs gammas fk gammak in
      let taus = sail_torque fl b fs gammas trialds heel in
      let tauk = keel_torque fl b fk gammak heel in
      let wanted = rudder_for_torque fl b taus tauk w.taug heel w.thetac w.vc in
      let trialdr = constrained constraint b w.thetac wanted in
      let (fr, gammar) = rudder_force fl b w.thetac w.vc trialdr in
      let taur = rudder_torque fl b fr gammar heel in
      let flon = add (add (mul fs (cos gammas)) (mul fk (cos gammak))) (mul fr (cos gammar)) in
      let taue = add (add (add taus tauk) taur) b.taubias in
      if equal (clip_rudder fl b trialdr w.thetac) trialdr
      then some (record {
        deltas = trialds;
        deltar = trialdr;
        cost = torque_cost ph constraint (mul (neg ph.qf) flon) taue w.taug;
      })
      else none

  -- The angle that round `ii` tries.
  pub trial_angle : F → ℕ → ℕ → F
  unfolding sail_range
  trial_angle thetaw nsteps ii =
      let (minds, maxds) = sail_range thetaw in
      let step = div (sub maxds minds) (of_int (pos (max 1 (nsteps - 1)))) in
      add minds (mul (of_int (pos ii)) step)

  -- What the loop keeps: the least cost, the angles where these have been set, and whether any trial
  -- was valid.
  pub record Found : Type 0 where
    pub mincost : F
    pub angles : Option (F × F)
    pub success : Bool

  abbrev pub taken : Trial → Found → Found
  taken t f =
      if lt t.cost f.mincost
      then record { mincost = t.cost; angles = some (t.deltas, t.deltar); success = true }
      else record f { success = true }

  abbrev pub tried : Option Trial → Found → Found
  tried none f = f
  tried (some t) f = taken t f

  -- The rounds that are left, from `ii` on.
  pub trials : (ℕ → Option Trial) → ℕ → ℕ → Found → Found
  trials at_round zero ii f = f
  trials at_round (suc k) ii f = trials at_round k (ii + 1) (tried (at_round ii) f)

  pub global_max_force_for_torque : F → Physics → Conditions → Constraint → ℕ → Found
  unfolding trials trial trial_angle
  global_max_force_for_torque infinity ph w constraint nsteps =
      trials (λ ii. trial ph w constraint (trial_angle w.thetaw nsteps ii)) nsteps 0
        (record { mincost = infinity; angles = none; success = false })

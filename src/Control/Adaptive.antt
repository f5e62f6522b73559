-- ===== src/Control/Adaptive.antt =====
-- `ControlPhysics` of control/adaptive.h and control/adaptive.cc: the forces and torques on the sail,
-- the keel and the rudder.
pub mod Search
pub mod Parameters
pub mod Run
use boat.Prelude.{ℕ, zero, suc, Bool, true, false, List, [], ◌∷◌, if◌then◌else◌}
use boat.Prelude.Floats.{Floats, fmin, fmax, clip}
use boat.Control.Util.{norm_angle, sign}

module _ (fl : Floats) where
  open fl use {F, add, sub, mul, div, neg, lt, of_int, literal, pi, abs, sin, cos, atan, exp}

  abbrev pub num : ℕ → F
  num n = literal n 1

  abbrev pub half : F
  half = literal 1 2

  abbrev pub half_pi : F
  half_pi = div pi (num 2)

  pub record AirfoilConstants : Type 0 where
    pub area : F
    pub rho : F
    pub c : F
    pub k : F
    pub drageps : F
    pub maxalpha : F

  pub record BoatConstants : Type 0 where
    pub sail : AirfoilConstants
    pub keel : AirfoilConstants
    pub rudder : AirfoilConstants
    pub hs : F
    pub hk : F
    pub hr : F
    pub rs : F
    pub rk : F
    pub rr : F
    pub ls : F
    pub lr : F
    pub hb : F
    pub m : F
    pub g : F
    pub j : F
    pub blon : F
    pub blat : F
    pub bomega : F
    pub taubias : F

  pub default_constants : BoatConstants
  default_constants = record {
    sail = record {
      area = num 2;
      rho = literal 1225 1000;
      c = literal 14 10;
      k = literal 15 10;
      drageps = num 0;
      maxalpha = half_pi;
    };
    keel = record {
      area = literal 3 10;
      rho = num 1000;
      c = literal 14 10;
      k = num 8;
      drageps = literal 1 10;
      maxalpha = literal 1 4;
    };
    rudder = record {
      area = literal 4 100;
      rho = num 1000;
      c = literal 17 10;
      k = num 5;
      drageps = literal 5 100;
      maxalpha = literal 1 4;
    };
    hs = literal 15 10;
    hk = neg (literal 7 10);
    hr = num 0;
    rs = literal 1 10;
    rk = num 0;
    rr = neg (literal 9 10);
    ls = literal 35 100;
    lr = num 0;
    hb = neg (literal 7 10);
    m = num 25;
    g = literal 98 10;
    j = num 10;
    blon = num 15;
    blat = num 25;
    bomega = num 500;
    taubias = num 0;
  }

  -- `0.5 * rho * A * v * v`.
  abbrev pressure : AirfoilConstants → F → F
  pressure a v = mul (mul (mul (mul half a.rho) a.area) v) v

  abbrev sign_of : F → F
  sign_of a = of_int (sign fl a)

  -- The force on the sail, and its direction to the air.
  pub sail_airfoil : BoatConstants → F → F → F × F
  sail_airfoil b alpha v =
      let trimalpha = fmax fl (sub (abs alpha) (literal 5 100)) (num 0) in
      let mag = mul b.sail.c (sub (num 1) (exp (mul (neg b.sail.k) trimalpha))) in
      (mul (pressure b.sail v) mag, mul (sub half_pi (abs alpha)) (sign_of alpha))

  -- The same for the keel and the rudder.
  pub foil : AirfoilConstants → F → F → F × F
  foil a alpha v =
      let mag = mul a.k (fmin fl (abs alpha) a.maxalpha) in
      (mul (pressure a v) mag, mul (sub half_pi a.drageps) (sign_of alpha))

  pub sail_force : BoatConstants → F → F → F → F × F
  unfolding sail_airfoil
  sail_force b thetaw vw deltas =
      let alpha = neg (norm_angle fl (add (add thetaw deltas) pi)) in
      let (force, ang) = sail_airfoil b alpha vw in (force, norm_angle fl (sub ang thetaw))

  pub keel_force : BoatConstants → F → F → F × F
  unfolding foil
  keel_force b thetac vc =
      let (force, ang) = foil b.keel (neg (norm_angle fl thetac)) vc in
      (force, norm_angle fl (add (sub ang thetac) pi))

  pub rudder_force : BoatConstants → F → F → F → F × F
  unfolding foil
  rudder_force b thetac vc deltar =
      let (force, ang) = foil b.rudder (neg (norm_angle fl (add thetac deltar))) vc in
      (force, norm_angle fl (add (sub ang thetac) pi))

  -- The height in the torque of the sail is that of the keel.
  pub sail_torque : BoatConstants → F → F → F → F → F
  sail_torque b fs gammas deltas heel = mul fs (
      add (mul (mul (sub b.rs (mul b.ls (cos deltas))) (sin gammas)) (cos heel))
        (mul (mul b.hk (cos gammas)) (sin heel)))

  pub keel_torque : BoatConstants → F → F → F → F
  keel_torque b fk gammak heel =
      mul fk (add (mul (mul b.rk (sin gammak)) (cos heel)) (mul (mul b.hk (cos gammak)) (sin heel)))

  pub rudder_torque : BoatConstants → F → F → F → F
  rudder_torque b fr gammar heel = mul (mul (mul fr b.rr) (sin gammar)) (cos heel)

  pub calc_heel : BoatConstants → F → F → F → F → F
  calc_heel b fs gammas fk gammak = atan (
      div (add (mul (mul fs b.hs) (sin gammas)) (mul (mul fk b.hk) (sin gammak)))
        (mul (mul b.hb b.m) b.g))

  pub rudder_for_torque : BoatConstants → F → F → F → F → F → F → F
  rudder_for_torque b taus tauk taugoal heel thetac vc =
      let r = b.rudder in
      let denom =
        mul
          (mul (mul (mul (mul (mul (mul (mul half r.rho) r.area) vc) vc) r.k) (cos thetac))
            (cos heel))
          b.rr in
      sub (div (sub (sub (sub taugoal taus) tauk) b.taubias) denom) thetac

  pub clip_rudder : BoatConstants → F → F → F
  clip_rudder b deltar thetac =
      let maxrud = b.rudder.maxalpha in
      fmax fl (fmin fl deltar (sub maxrud thetac)) (sub (neg maxrud) thetac)

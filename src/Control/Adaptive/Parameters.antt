-- ===== src/Control/Adaptive/Parameters.antt =====
-- The parameters that adapt and the net force: `beta`, `set_beta`, `IncrementBeta` and `NetForce` of
-- control/adaptive.h and control/adaptive.cc. `dot` is the sum of products that Eigen forms.
use boat.Prelude.{ℕ, List, [], ◌∷◌, get_or}
use boat.Prelude.Floats.{Floats, fmin, fmax}
use boat.Control.Adaptive.{
  num, BoatConstants, sail_force, keel_force, rudder_force, sail_torque, keel_torque, rudder_torque,
  calc_heel,
}

module _ (fl : Floats) (dot : List fl.F → List fl.F → fl.F) where
  open fl use {F, add, sub, mul, div, neg, literal, abs, sin, cos}

  abbrev zero_F : F
  zero_F = num fl 0

  -- The parameters that adapt.
  pub beta : BoatConstants fl → List F
  beta b = b.blon ∷ b.bomega ∷ b.rudder.area ∷ b.rs ∷ b.taubias ∷ num fl 1 ∷ []

  abbrev pub betamin : List F
  betamin = num fl 0 ∷ num fl 0 ∷ literal 1 100 ∷ neg (num fl 1) ∷ neg (num fl 10) ∷ num fl 1 ∷ []

  abbrev pub betamax : List F
  betamax = num fl 1000 ∷ num fl 10000 ∷ num fl 1 ∷ num fl 1 ∷ num fl 10 ∷ num fl 1 ∷ []

  abbrev component : List F → ℕ → F
  component v i = get_or v i zero_F

  unfoldable pub set_beta : (ℕ → F) → BoatConstants fl → BoatConstants fl
  set_beta v b = record b {
    blon = v 0;
    bomega = v 1;
    rudder = record b.rudder { area = v 2 };
    rs = v 3;
    taubias = v 4;
  }

  abbrev pub increased : List F → BoatConstants fl → ℕ → F
  increased diff b i =
      fmin fl (fmax fl (add (component (beta b) i) (component diff i)) (component betamin i))
        (component betamax i)

  unfoldable pub increment_beta : List F → BoatConstants fl → BoatConstants fl
  unfolding set_beta beta
  increment_beta diff b = set_beta (increased diff b) b

  -- The results of `NetForce`, with the two rows of `Y`.
  pub record Net : Type 0 where
    pub flon : F
    pub flat : F
    pub taunet : F
    pub newheel : F
    pub y_flon : List F
    pub y_tau : List F

  unfoldable pub net_force : BoatConstants fl → F → F → F → F → F → F → F → Net
  unfolding beta
  net_force b thetaw vw thetac vc deltas deltar omega =
      let (fs, gammas) = sail_force fl b thetaw vw deltas in
      let (fk, gammak) = keel_force fl b thetac vc in
      let (fr, gammar) = rudder_force fl b thetac vc deltar in
      let heel = calc_heel fl b fs gammas fk gammak in
      let taus = sail_torque fl b fs gammas deltas heel in
      let tauk = keel_torque fl b fk gammak heel in
      let taur = rudder_torque fl b fr gammar heel in
      let y_flon =
        mul (mul (neg vc) (abs vc)) (cos thetac)
        ∷ zero_F
        ∷ div (mul fr (cos gammar)) b.rudder.area
        ∷ zero_F
        ∷ zero_F
        ∷ add (mul fs (cos gammas)) (mul fk (cos gammak))
        ∷ [] in
      let taurs = mul (mul fs (sin gammas)) (cos heel) in
      let y_tau =
        zero_F
        ∷ mul (neg omega) (abs omega)
        ∷ div taur b.rudder.area
        ∷ taurs
        ∷ num fl 1
        ∷ add tauk (sub taus (mul taurs b.rs))
        ∷ [] in
      let side = add (add (mul fs (sin gammas)) (mul fk (sin gammak))) (mul fr (sin gammar)) in
      record {
        flon = dot y_flon (beta b);
        flat = add (mul side (cos heel)) (mul (mul b.blat vc) (sin thetac));
        taunet = dot y_tau (beta b);
        newheel = heel;
        y_flon = y_flon;
        y_tau = y_tau;
      }

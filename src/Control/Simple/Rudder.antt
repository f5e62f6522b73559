-- ===== src/Control/Simple/Rudder.antt =====
-- The bounds on the rudder and its integrator in control/simple.cc.
use boat.Prelude.{
  ◌≡◌, refl, Bool, true, false, none, some, List, [], ◌∷◌, All, arith, ◌&&◌, ◌++◌, ◌%◌, ◌==◌,
}
use boat.Prelude.Floats.{Floats, IsOrdered, clip-bounded}
use boat.Control.Simple.Rates.{and_then-some}
use boat.Control.Simple.{
  Simple, Output, rudder_cmd, only, goal_rudder, Event, control_mode, tick, step, run, iterate,
  updated, integrated, clipped_rudder, max_rudder_at, on_control_consts, on_heading_cmd,
  on_control_mode, on_sbus, start, rigid_wing_cmd, heel_cmd, control_consts, heel_goal, alphaw,
}

module _ (fl : Floats) (o : IsOrdered fl) where
  open fl use {F, lt, neg, literal, narrow, sub, mul, abs}

  abbrev pub limit : F
  limit = literal 3 2

  abbrev pub IsBounded : F → Type 0
  IsBounded i = (lt limit i ≡ false) × (lt i (neg limit) ≡ false)

  -- A command to the rudder is the negative of a value that compares neither above the limit for the
  -- speed nor below its negative, as a float.
  abbrev pub IsLimited : Simple fl → Output fl → Type 0
  IsLimited s (rudder_cmd pos vel) =
      (r : F) × (pos ≡ narrow (neg r))
      × (lt (max_rudder_at fl s) r ≡ false)
      × (lt r (neg (max_rudder_at fl s)) ≡ false)
  IsLimited s out = Unit

  front-All :
      (P : Output fl → Type 0) (b : Bool) (out : Output fl) (rest : List (Output fl))
      → P out
      → All P rest
      → All P (only fl b out ++ rest)
  front-All P true out rest h r = (h, r)
  front-All P false out rest h r = r

  only-All : (P : Output fl → Type 0) (b : Bool) (out : Output fl) → P out → All P (only fl b out)
  only-All P true out h = (h, tt)
  only-All P false out h = tt

  goal_rudder-IsLimited :
      (s : Simple fl) (vel : F)
      → lt (max_rudder_at fl s) (neg (max_rudder_at fl s)) ≡ false
      → IsLimited s (rudder_cmd (narrow (goal_rudder fl s)) vel)
  unfolding goal_rudder clipped_rudder
  goal_rudder-IsLimited s vel m =
      let (above, below) = clip-bounded fl o _ (neg (max_rudder_at fl s)) (max_rudder_at fl s) m in
      (clipped_rudder fl s, refl, above, below)

  iterate-IsLimited :
      (s : Simple fl)
      → lt (max_rudder_at fl s) (neg (max_rudder_at fl s)) ≡ false
      → All (IsLimited s) (iterate fl s).1
  unfolding iterate
  iterate-IsLimited s m =
      let P = IsLimited s in
      let t = updated fl s in
      let rudder = goal_rudder fl s in
      let vel = narrow (mul (literal 1 1) (sub rudder s.boat_state.rudder)) in
      (
        tt,
        front-All P (s.auto_rigid_wing && t.counter % 10 == 0) (rigid_wing_cmd t.servo_pos) _ tt (
            front-All P s.do_rudder (rudder_cmd (narrow rudder) vel) _
              (goal_rudder-IsLimited s vel m)
              (front-All P (lt (literal 14 10) (abs (alphaw fl s)))
                (heel_cmd (narrow (heel_goal fl s))) _ tt
                (only-All P (t.counter % 100 == 0) (control_consts s.consts) tt))),
      )

  -- That zero lies between the limits, and that these are the right way round.
  module _ (zero_in : IsBounded (literal 0 1)) (limits_apart : lt limit (neg limit) ≡ false) where
    integrated-IsBounded : (s : Simple fl) → IsBounded (integrated fl s)
    unfolding integrated
    integrated-IsBounded s = clip-bounded fl o _ (neg limit) limit limits_apart

    step-IsBounded :
        (e : Event fl) (s : Simple fl) {t : Simple fl} {out : List (Output fl)}
        → step fl e s ≡ some (t, out)
        → IsBounded s.rudder_integrator
        → IsBounded t.rudder_integrator
    unfolding step on_control_consts on_heading_cmd on_sbus iterate updated on_control_mode
    step-IsBounded (control_mode none) s h b = ground arith
    step-IsBounded (control_mode (some m)) s h b = ground arith
    step-IsBounded tick s h b = ground (arith, integrated-IsBounded s)
    step-IsBounded e s h b = ground arith

    run-IsBounded :
        (es : List (Event fl)) (s : Simple fl) {t : Simple fl} {out : List (Output fl)}
        → run fl es s ≡ some (t, out)
        → IsBounded s.rudder_integrator
        → IsBounded t.rudder_integrator
    unfolding run
    run-IsBounded [] s h b = ground arith
    run-IsBounded (e ∷ es) s h b =
        let (u, o, p, q, r, sent) = and_then-some fl (step fl e s) (run fl es) h in
        run-IsBounded es u r (step-IsBounded e s q b)

    -- After any run from the start of the node no comparison finds the integrator of the rudder above 1.5
    -- or below -1.5, nor what the next iteration makes of it; and each command to the rudder that the
    -- next iteration sends is the negative of a value, as a float, that compares neither above the limit
    -- for the speed nor below its negative, if the limit is not below its negative. Something that is not
    -- a number compares so too.
    pub rudder_in_range :
        (do_rudder : Bool) (es : List (Event fl)) {t : Simple fl} {out : List (Output fl)}
        → run fl es (start fl do_rudder).0 ≡ some (t, out)
        → lt (max_rudder_at fl t) (neg (max_rudder_at fl t)) ≡ false
        → (IsBounded t.rudder_integrator × IsBounded (integrated fl t))
          × All (IsLimited t) (iterate fl t).1
    unfolding start
    rudder_in_range do_rudder es {t} h m = (
      (run-IsBounded es (start fl do_rudder).0 h zero_in, integrated-IsBounded t),
      iterate-IsLimited t m,
    )

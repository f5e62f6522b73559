-- ===== src/Control/Adaptive/Run/Ranges.antt =====
-- What no comparison in `AdaptiveControl` (control/adaptive.cc) finds out of range: the orders to the
-- rudder, and the parameters that adapt.
use boat.Prelude.{
  ℕ, ◌<◌, ◌≤◌, ◌^◌, ◌≡◌, refl, inl, inr, true, false, List, [], ◌∷◌, Option, none, some, All,
  All-append, Bool-cases, arith,
}
use boat.Prelude.Floats.{
  Floats, IsOrdered, fmin, fmax, clip, fmin-bounded, fmin-keeps, fmax-bounded, clip-bounded,
}
use boat.Control.Adaptive.{num, half, BoatConstants}
use boat.Control.Adaptive.Parameters.{set_beta, increment_beta}
use boat.Control.Adaptive.Run.{
  searched, change, angles_or, Adaptive, Output, rudder_cmd, update_yaw_ref, controller, orders,
  iterate, Event, boat_state, wind, heading_cmd, consts_msg, tick, on_consts, step, run,
}

module _ (fl : Floats) (dot : List fl.F → List fl.F → fl.F) where
  open fl use {F, lt, neg, narrow, literal}

  -- Not below the first bound and not above the second.
  abbrev pub IsIn : F → F → F → Type 0
  IsIn lo hi a = (lt a lo ≡ false) × (lt hi a ≡ false)

  -- An order to the rudder is a value in range, as a float.
  abbrev pub IsWithin : Output fl dot → Type 0
  IsWithin (rudder_cmd pos) = (r : F) × (pos ≡ narrow r) × IsIn (neg (half fl)) (half fl) r
  IsWithin _ = Unit

  -- The parameters lie between their bounds.
  abbrev pub IsBounded : BoatConstants fl → Type 0
  IsBounded b =
      IsIn (num fl 0) (num fl 1000) b.blon
      × IsIn (num fl 0) (num fl 10000) b.bomega
      × IsIn (literal 1 100) (num fl 1) b.rudder.area
      × IsIn (neg (num fl 1)) (num fl 1) b.rs
      × IsIn (neg (num fl 10)) (num fl 10) b.taubias

  module _ (o : IsOrdered fl) where
    bounded : (a lo hi : F) → lt lo hi ≡ true → IsIn lo hi (fmin fl (fmax fl a lo) hi)
    bounded a lo hi h =
        (fmin-keeps fl o lo (fmax fl a lo) hi h (fmax-bounded fl o a lo), fmin-bounded fl o _ hi)

    below_zero : (n : ℕ) → 0 < n → n ≤ 2 ^ 24 → lt (neg (num fl n)) (num fl n) ≡ true
    below_zero n h l =
        let above = o.literal_lt 0 n h l in
        o.lt_trans (neg (num fl n)) (num fl 0) (num fl n) (o.neg_lt (num fl n) above) above

    module _ (hundredth : lt (literal 1 100) (num fl 1) ≡ true)
        (half_apart : lt (half fl) (neg (half fl)) ≡ false) where
      increment_beta-IsBounded :
          (diff : List F) (b : BoatConstants fl) → IsBounded (increment_beta fl dot diff b)
      unfolding increment_beta set_beta
      increment_beta-IsBounded diff b = (
        bounded _ (num fl 0) (num fl 1000) (o.literal_lt 0 1000 (omega arith) (omega arith)),
        bounded _ (num fl 0) (num fl 10000) (o.literal_lt 0 10000 (omega arith) (omega arith)),
        bounded _ (literal 1 100) (num fl 1) hundredth,
        bounded _ (neg (num fl 1)) (num fl 1) (below_zero 1 (omega arith) (omega arith)),
        bounded _ (neg (num fl 10)) (num fl 10) (below_zero 10 (omega arith) (omega arith)),
      )

      orders-AreWithin :
          (deltas deltar : F) (s : Adaptive fl dot) → All IsWithin (orders fl dot deltas deltar s)
      unfolding orders
      orders-AreWithin deltas deltar s =
          let (above, below) = clip-bounded fl o deltar (neg (half fl)) (half fl) half_apart in
          (tt, ((clip fl deltar (neg (half fl)) (half fl), refl, (below, above)), (tt, tt)))

      abbrev Keeps : Adaptive fl dot → Adaptive fl dot × List (Output fl dot) → Type 0
      Keeps s r = (IsBounded s.physics.consts → IsBounded r.0.physics.consts) × All IsWithin r.1

      controller-IsBounded :
          (infinity : F) (unset : F × F) (s : Adaptive fl dot)
          → IsBounded s.physics.consts
          → IsBounded (controller fl dot infinity unset s).1.physics.consts
      unfolding controller update_yaw_ref
      controller-IsBounded infinity unset s h =
          let angles = angles_or fl dot unset (searched fl dot infinity s).angles in
          elim (Bool-cases (searched fl dot infinity s).success) [
            | inl e ↦ rw e (increment_beta-IsBounded (change fl dot s angles) s.physics.consts)
            | inr e ↦ rw e h
          ]

      step-Keeps :
          (infinity : F) (e : Event fl dot) (s : Adaptive fl dot)
          → Keeps s (step fl dot infinity e s)
      unfolding step iterate on_consts
      step-Keeps infinity (boat_state vx vy yaw omega sail) s = (λ h. h, tt)
      step-Keeps infinity (wind wx wy) s = (λ h. h, tt)
      step-Keeps infinity (heading_cmd none) s = (λ h. h, tt)
      step-Keeps infinity (heading_cmd (some h)) s = (λ h. h, tt)
      step-Keeps infinity (consts_msg msg) s = (with_qf msg.qf, tt)
        where
          with_qf :
              (qf : Option F)
              → IsBounded s.physics.consts
              → IsBounded (on_consts fl dot msg qf s).physics.consts
          with_qf none h = h
          with_qf (some qf) h = h
      step-Keeps infinity (tick unset) s =
          let (angles, s') = controller fl dot infinity unset s in
          let (deltas, deltar) = angles_or fl dot (num fl 0, num fl 0) angles in
          (controller-IsBounded infinity unset s, orders-AreWithin deltas deltar s')

      run-Keeps :
          (infinity : F) (es : List (Event fl dot)) (s : Adaptive fl dot)
          → Keeps s (run fl dot infinity es s)
      unfolding run
      run-Keeps infinity [] s = (λ h. h, tt)
      run-Keeps infinity (e ∷ es) s =
          let (keep1, out1) = step-Keeps infinity e s in
          let s1 = (step fl dot infinity e s).0 in
          let (keep2, out2) = run-Keeps infinity es s1 in
          (λ h. keep2 (keep1 h), All-append IsWithin (step fl dot infinity e s).1 _ out1 out2)

  -- Whatever comes in and whatever the memory holds, for every run: each order to the rudder is, as a
  -- float, a value that compares neither above 1/2 nor below -1/2, and no comparison finds a parameter
  -- that adapts beyond its bounds if none did before. Something that is not a number compares so too.
  -- Here comparisons are a strict order, 1/100 is below 1, and 1/2 not below -1/2.
  pub run_in_range :
      (o : IsOrdered fl)
      → lt (literal 1 100) (num fl 1) ≡ true
      → lt (half fl) (neg (half fl)) ≡ false
      → (infinity : F) (es : List (Event fl dot)) (s : Adaptive fl dot) → IsBounded s.physics.consts
      → let (s', out) = run fl dot infinity es s in IsBounded s'.physics.consts × All IsWithin out
  run_in_range o hundredth half_apart infinity es s h =
      let (keep, out) = run-Keeps o hundredth half_apart infinity es s in (keep h, out)

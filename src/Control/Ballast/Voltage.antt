-- ===== src/Control/Ballast/Voltage.antt =====
-- The voltage that control/ballast.cc applies to the ballast, and its integrator.
use boat.Prelude.{
  ◌≡◌, refl, ◌⊎◌, inl, inr, true, false, ◌||◌, none, some, List, [], ◌∷◌, arith, Bool-cases,
}
use boat.Prelude.Floats.{Floats, IsOrdered, clip-bounded}
use boat.Control.Ballast.{
  Ballast, Event, control_mode, tick, step, run, start, iterate, zero_F, on_control_consts,
  on_control_mode, on_heading_cmd, on_boat_state, integrated, ballast_voltage, clipped_voltage,
  voltage_deadband, ballast_error,
}

module _ (fl : Floats) (o : IsOrdered fl) where
  open fl use {F, lt, neg, abs, literal}

  abbrev pub IsWithin : F → F → Type 0
  IsWithin limit a = (lt limit a ≡ false) × (lt a (neg limit) ≡ false)

  abbrev pub twelve : F
  twelve = literal 12 1

  abbrev pub five : F
  five = literal 5 1

  right_way_round : (limit : F) → lt (literal 0 1) limit ≡ true → lt limit (neg limit) ≡ false
  right_way_round limit h = ground (
    arith,
    o.neg_lt limit h,
    o.lt_trans limit (neg limit) (literal 0 1),
    o.lt_trans limit (literal 0 1) limit,
    o.lt_irrefl limit,
  )

  zero-IsWithin : (limit : F) → lt (literal 0 1) limit ≡ true → IsWithin limit (literal 0 1)
  zero-IsWithin limit h = (
    ground (arith, o.lt_trans limit (literal 0 1) limit, o.lt_irrefl limit),
    ground (
      arith,
      o.neg_lt limit h,
      o.lt_trans (literal 0 1) (neg limit) (literal 0 1),
      o.lt_irrefl (literal 0 1),
    ),
  )

  five_up : lt (literal 0 1) five ≡ true
  five_up = o.literal_lt 0 5 (omega arith) (omega arith)

  twelve_up : lt (literal 0 1) twelve ≡ true
  twelve_up = o.literal_lt 0 12 (omega arith) (omega arith)

  clipped-IsWithin : (s : Ballast fl) → IsWithin twelve (clipped_voltage fl s)
  unfolding clipped_voltage
  clipped-IsWithin s = clip-bounded fl o _ (neg twelve) twelve (right_way_round twelve twelve_up)

  voltage-IsWithin : (s : Ballast fl) → IsWithin twelve (ballast_voltage fl s)
  unfolding ballast_voltage
  voltage-IsWithin s = ground (arith, clipped-IsWithin s, zero-IsWithin twelve twelve_up)

  -- Either nothing is applied, or enough to move the ballast, which is not far out.
  abbrev pub IsUseful : Ballast fl → F → Type 0
  IsUseful s v =
      (v ≡ zero_F fl)
      ⊎ ((lt (abs v) (voltage_deadband fl s) ≡ false)
          × (lt (literal 15 10) (abs s.ballast) ≡ false))

  voltage-IsUseful : (s : Ballast fl) → IsUseful s (ballast_voltage fl s)
  unfolding ballast_voltage
  voltage-IsUseful s =
      elim (Bool-cases (
        lt (abs (ballast_error fl s)) (literal 1 1000)
        || lt (literal 15 10) (abs s.ballast)
        || lt (abs (clipped_voltage fl s)) (voltage_deadband fl s))) [
          | inl e ↦ inl (rw e refl)
          | inr e ↦ inr (rw e (ground arith, ground arith))
        ]

  -- That negation maps a range around zero to itself.
  module _ (neg-IsWithin : (a : F) → IsWithin five a → IsWithin five (neg a)) where
    step-IsWithin :
        (e : Event fl) (s : Ballast fl)
        → IsWithin five s.heel_error_integrator
        → IsWithin five (step fl e s).0.heel_error_integrator
    unfolding step on_control_consts on_control_mode on_heading_cmd on_boat_state iterate integrated
    step-IsWithin (control_mode none) s b = b
    step-IsWithin (control_mode (some m)) s b = zero-IsWithin five five_up
    step-IsWithin tick s b = clip-bounded fl o _ (neg five) five (right_way_round five five_up)
    step-IsWithin e s b =
        ground (arith, zero-IsWithin five five_up, neg-IsWithin s.heel_error_integrator)

    run-IsWithin :
        (es : List (Event fl)) (s : Ballast fl)
        → IsWithin five s.heel_error_integrator
        → IsWithin five (run fl es s).0.heel_error_integrator
    unfolding run
    run-IsWithin [] s b = b
    run-IsWithin (e ∷ es) s b = run-IsWithin es (step fl e s).0 (step-IsWithin e s b)

    -- After any run from the start of the node no comparison finds the integrator above 5 or below -5;
    -- and the next iteration sets a voltage that compares neither above 12 nor below -12, and is zero, or
    -- compares not below the dead band in size with the ballast not more than 1.5 from its middle.
    -- Something that is not a number compares so too. Negation is taken to keep what compares neither
    -- above 5 nor below -5 so.
    pub voltage_in_range :
        (es : List (Event fl))
        → let s = (run fl es (start fl).0).0 in
          let v = (iterate fl s).0.last_voltage in
          (IsWithin five s.heel_error_integrator × IsWithin twelve v) × IsUseful s v
    unfolding iterate start
    voltage_in_range es =
        let s = (run fl es (start fl).0).0 in
        (
          (run-IsWithin es (start fl).0 (zero-IsWithin five five_up), voltage-IsWithin s),
          voltage-IsUseful s,
        )

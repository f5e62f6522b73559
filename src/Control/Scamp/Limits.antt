-- ===== src/Control/Scamp/Limits.antt =====
-- The position of the winch that `SetRawFromSailCmd` of control/scamp.cc sends.
use boat.Prelude.Int.{ℤ, ltb_ℤ}
use boat.Prelude.{◌≡◌, refl, true, false, arith, if◌then◌else◌, Bool-cases, inl, inr}
use boat.Prelude.Floats.{
  Floats, IsOrdered, fmin, fmax, fmin-bounded, fmax-bounded, fmin-keeps, fmax-keeps, fmin-below,
  fmax-above,
}
use boat.Control.Scamp.{
  Scamp, number, or_default, or_zero, at_ends, permitted, set_raw_from_sail_cmd,
}

module _ (fl : Floats) (o : IsOrdered fl) where
  open fl use {F, lt, le, neg, abs, add, mul, div, narrow, trunc}

  abbrev pub zero_volts : F
  zero_volts = number fl 0

  abbrev pub twelve : F
  twelve = number fl 12

  above_zero : lt zero_volts twelve ≡ true
  above_zero = o.literal_lt 0 12 (omega arith) (omega arith)

  below_zero : lt (neg twelve) zero_volts ≡ true
  below_zero = o.neg_lt twelve above_zero

  -- A voltage on one side of zero stays there.
  live-above :
      (v : F)
      → lt v zero_volts ≡ false
      → lt (if lt (abs v) (number fl 1) then zero_volts else v) zero_volts ≡ false
  live-above v h = ground (arith, o.lt_irrefl zero_volts)

  live-below :
      (v : F)
      → lt zero_volts v ≡ false
      → lt zero_volts (if lt (abs v) (number fl 1) then zero_volts else v) ≡ false
  live-below v h = ground (arith, o.lt_irrefl zero_volts)

  permitted-above : (v : F) → lt v zero_volts ≡ false → lt (permitted fl v) zero_volts ≡ false
  unfolding permitted
  permitted-above v h =
      fmin-keeps fl o zero_volts _ twelve above_zero
        (fmax-above fl o zero_volts _ (neg twelve) below_zero (live-above v h))

  permitted-below : (v : F) → lt zero_volts v ≡ false → lt zero_volts (permitted fl v) ≡ false
  unfolding permitted
  permitted-below v h =
      fmin-below fl o zero_volts _ twelve above_zero
        (fmax-keeps fl o zero_volts _ (neg twelve) below_zero (live-below v h))

  permitted_range :
      (v : F) → (lt twelve (permitted fl v) ≡ false) × (lt (permitted fl v) (neg twelve) ≡ false)
  unfolding permitted
  permitted_range v = (
    fmin-bounded fl o _ twelve,
    fmin-keeps fl o (neg twelve) _ twelve (o.lt_trans _ _ _ below_zero above_zero)
        (fmax-bounded fl o _ (neg twelve)),
  )

  let_out_stop :
      (v : F) (s : Scamp fl)
      → (if le (or_default fl s.consts.winch_out_angle) s.sail_pos
          then lt zero_volts (permitted fl (at_ends fl v s))
          else false)
        ≡ false
  unfolding at_ends
  let_out_stop v s = elim (Bool-cases (le (or_default fl s.consts.winch_out_angle) s.sail_pos)) [
    | inl out ↦ rw out (permitted-below (fmin fl v zero_volts) (fmin-bounded fl o v zero_volts))
    | inr inside ↦ rw inside
  ]

  pulled_in_stop :
      (v : F) (s : Scamp fl)
      → (if le (or_default fl s.consts.winch_out_angle) s.sail_pos
          then false
          else if le s.sail_pos zero_volts
          then lt (permitted fl (at_ends fl v s)) zero_volts
          else false)
        ≡ false
  unfolding at_ends
  pulled_in_stop v s = elim (Bool-cases (le (or_default fl s.consts.winch_out_angle) s.sail_pos)) [
    | inl out ↦ rw out
    | inr inside ↦ rw inside (elim (Bool-cases (le s.sail_pos zero_volts)) [
      | inl pulled ↦
          rw pulled (permitted-above (fmax fl v zero_volts) (fmax-bounded fl o v zero_volts))
      | inr between ↦ rw between
    ])
  ]

  -- The position that is sent to the winch for a voltage, which is turned round where the winch is
  -- wired so.
  pub position_for : F → Scamp fl → ℤ
  position_for volts s =
      let up = ltb_ℤ (or_zero s.consts.winch_0_pot) (or_zero s.consts.winch_90_pot) in
      let turned = narrow (mul volts (if up then neg (number fl 1) else number fl 1)) in
      trunc (add (mul (div turned twelve) (number fl 90)) (number fl 90))

  -- Whatever voltage is ordered, the winch is sent the position for a voltage, before it is turned round
  -- for the wiring, that compares neither above 12 nor below -12, not above zero where the sail is let
  -- out as far as it may be, and not below zero where it is pulled in and not let out that far.
  pub winch_stops_at_ends :
      (v : F) (s : Scamp fl)
      → (w : F) × ((set_raw_from_sail_cmd fl v s).raw_winch ≡ position_for w s)
        × (let let_out = le (or_default fl s.consts.winch_out_angle) s.sail_pos in
            ((lt twelve w ≡ false) × (lt w (neg twelve) ≡ false))
            × ((if let_out then lt zero_volts w else false) ≡ false)
            × ((if let_out
                  then false
                  else if le s.sail_pos zero_volts
                  then lt w zero_volts
                  else false)
                ≡ false))
  unfolding set_raw_from_sail_cmd position_for
  winch_stops_at_ends v s = (
    permitted fl (at_ends fl v s),
    refl,
    (permitted_range (at_ends fl v s), let_out_stop v s, pulled_in_stop v s),
  )

-- ===== src/Control/Scamp/Safety.antt =====
-- Who may move a servo, in which mode (control/scamp.cc).
use boat.Prelude.{
  subst, ◌≡◌, refl, Bool, true, false, Option, none, some, List, [], ◌∷◌, arith, if◌then◌else◌,
}
use boat.Prelude.Int.{ℤ, pos}
use boat.Prelude.Floats.{Floats}
use boat.Control.Waypoint.{Mode, manual_rc, auto, manual_wifi, disable, filtered_rc}
use boat.Control.Scamp.{
  Output, Scamp, Consts, start, set_raw_from_sail_cmd, set_raw_from_rudder_cmd,
  set_raw_from_ballast_cmd,
}
use boat.Control.Scamp.Handlers.{
  Step, and_then, is_mode, Event, ballast_state, sail_cmd, manual_sail_cmd, rudder_cmd,
  manual_rudder_cmd, ballast_cmd, manual_ballast_cmd, sbus_value, control_mode, tick, step, run,
  iterate, on_sbus, on_zeroing_consts, on_analog_pot, on_ballast_state, on_sail_cmd, on_rudder_cmd,
  on_ballast_cmd, on_control_mode,
}

-- Which events may move a servo in which mode. The winch moves in two steps: an order sets its
-- voltage, and the next iteration its position.
abbrev pub rudder_moves : {fl : Floats} → Mode → Event fl → Bool
rudder_moves auto (rudder_cmd p) = true
rudder_moves manual_wifi (manual_rudder_cmd p) = true
rudder_moves manual_rc (sbus_value c) = true
rudder_moves filtered_rc (sbus_value c) = true
rudder_moves m (control_mode c) = true
rudder_moves m e = false

abbrev pub winch_ordered : {fl : Floats} → Mode → Event fl → Bool
winch_ordered auto (sail_cmd v) = true
winch_ordered manual_wifi (manual_sail_cmd v) = true
winch_ordered filtered_rc (sbus_value c) = true
winch_ordered m e = false

abbrev pub winch_moves : {fl : Floats} → Mode → Event fl → Bool
winch_moves auto tick = true
winch_moves manual_wifi tick = true
winch_moves filtered_rc tick = true
winch_moves manual_rc (sbus_value c) = true
winch_moves m (control_mode c) = true
winch_moves m e = false

abbrev pub ballast_moves : {fl : Floats} → Mode → Event fl → Bool
ballast_moves auto (ballast_cmd c) = true
ballast_moves manual_wifi (manual_ballast_cmd c) = true
ballast_moves m (control_mode c) = true
ballast_moves m e = false

module _ (fl : Floats) where
  abbrev pub neutral : Mode → ℤ → ℤ
  neutral m raw = if is_mode m disable then raw else pos 90

  -- What is disabled stands in its middle.
  pub record IsNeutral (s : Scamp fl) : Type 0 where
    pub rudder : neutral s.rudder_mode s.raw_rudder ≡ pos 90
    pub winch : neutral s.winch_mode s.raw_winch ≡ pos 90
    pub ballast : neutral s.ballast_mode s.raw_ballast ≡ pos 90

  start-IsNeutral : (file : Option (Consts fl)) → IsNeutral (start fl file)
  unfolding start
  start-IsNeutral file = record { rudder = refl; winch = refl; ballast = refl }

  step-IsNeutral :
      (e : Event fl) (s : Scamp fl) {t : Scamp fl} {out : List (Output fl)}
      → step fl e s ≡ some (t, out)
      → IsNeutral s
      → IsNeutral t
  unfolding step on_zeroing_consts on_analog_pot on_ballast_state on_sail_cmd on_rudder_cmd
      on_ballast_cmd on_control_mode set_raw_from_rudder_cmd set_raw_from_ballast_cmd
      set_raw_from_sail_cmd on_sbus iterate
  step-IsNeutral (ballast_state none) s h v = ground arith
  step-IsNeutral (ballast_state (some b)) s h v = ground arith
  step-IsNeutral e s h v = ground arith

  and_then-some :
      (m : Option (Step fl)) (f : Scamp fl → Option (Scamp fl)) {u : Scamp fl}
      → and_then fl m f ≡ some u
      → (t : Scamp fl) × (out : List (Output fl)) × (m ≡ some (t, out)) × (f t ≡ some u)
  and_then-some none f h = cc
  and_then-some (some (t, out)) f h = (t, out, refl, h)

  run-IsNeutral :
      (es : List (Event fl)) (s : Scamp fl) {t : Scamp fl}
      → run fl es s ≡ some t
      → IsNeutral s
      → IsNeutral t
  unfolding run
  run-IsNeutral [] s h v = subst IsNeutral (ground arith) v
  run-IsNeutral (e ∷ es) s h v =
      let (t, out, q, r) = and_then-some (step fl e s) (run fl es) h in
      run-IsNeutral es t r (step-IsNeutral e s q v)

  -- From the start of the node on, whatever it is sent and whatever constants it has: as long as the
  -- rudder, the winch or the ballast is disabled, its servo is told its middle, 90. `neutral m raw` is
  -- `raw` if the mode `m` is the disabled one.
  pub disabled_is_neutral :
      (file : Option (Consts fl)) (es : List (Event fl)) {s : Scamp fl}
      → run fl es (start fl file) ≡ some s
      → (neutral s.rudder_mode s.raw_rudder ≡ pos 90)
        × (neutral s.winch_mode s.raw_winch ≡ pos 90)
        × (neutral s.ballast_mode s.raw_ballast ≡ pos 90)
  disabled_is_neutral file es h =
      let v = run-IsNeutral es (start fl file) h (start-IsNeutral file) in
      (v.rudder, v.winch, v.ballast)

  rudder_kept :
      (e : Event fl) (s : Scamp fl) {t : Scamp fl} {out : List (Output fl)}
      → step fl e s ≡ some (t, out)
      → (if rudder_moves s.rudder_mode e then s.raw_rudder else t.raw_rudder) ≡ s.raw_rudder
  unfolding step on_zeroing_consts on_analog_pot on_ballast_state on_sail_cmd on_rudder_cmd
      on_ballast_cmd on_control_mode set_raw_from_rudder_cmd set_raw_from_ballast_cmd
      set_raw_from_sail_cmd on_sbus iterate
  rudder_kept (ballast_state none) s h = ground arith
  rudder_kept (ballast_state (some b)) s h = ground arith
  rudder_kept e s h = ground arith

  winch_kept :
      (e : Event fl) (s : Scamp fl) {t : Scamp fl} {out : List (Output fl)}
      → step fl e s ≡ some (t, out)
      → ((if winch_ordered s.winch_mode e then s.volts_winch else t.volts_winch) ≡ s.volts_winch)
        × ((if winch_moves s.winch_mode e then s.raw_winch else t.raw_winch) ≡ s.raw_winch)
  unfolding step on_zeroing_consts on_analog_pot on_ballast_state on_sail_cmd on_rudder_cmd
      on_ballast_cmd on_control_mode set_raw_from_rudder_cmd set_raw_from_ballast_cmd
      set_raw_from_sail_cmd on_sbus iterate
  winch_kept (ballast_state none) s h = ground arith
  winch_kept (ballast_state (some b)) s h = ground arith
  winch_kept e s h = ground arith

  ballast_kept :
      (e : Event fl) (s : Scamp fl) {t : Scamp fl} {out : List (Output fl)}
      → step fl e s ≡ some (t, out)
      → (if ballast_moves s.ballast_mode e then s.raw_ballast else t.raw_ballast) ≡ s.raw_ballast
  unfolding step on_zeroing_consts on_analog_pot on_ballast_state on_sail_cmd on_rudder_cmd
      on_ballast_cmd on_control_mode set_raw_from_rudder_cmd set_raw_from_ballast_cmd
      set_raw_from_sail_cmd on_sbus iterate
  ballast_kept (ballast_state none) s h = ground arith
  ballast_kept (ballast_state (some b)) s h = ground arith
  ballast_kept e s h = ground arith

  -- Whatever an event does, it moves a servo only where the mode of the servo lets it: the rudder by
  -- `rudder_cmd` in automatic mode, by `manual_rudder_cmd` in the mode of the network, by the remote
  -- control in its two modes, and by a message about the modes; the winch and its voltage, and the
  -- ballast, likewise.
  pub servos_obey_modes :
      (e : Event fl) (s : Scamp fl) {t : Scamp fl} {out : List (Output fl)}
      → step fl e s ≡ some (t, out)
      → ((if rudder_moves s.rudder_mode e then s.raw_rudder else t.raw_rudder) ≡ s.raw_rudder)
        × (((if winch_ordered s.winch_mode e then s.volts_winch else t.volts_winch) ≡ s.volts_winch)
            × ((if winch_moves s.winch_mode e then s.raw_winch else t.raw_winch) ≡ s.raw_winch))
        × ((if ballast_moves s.ballast_mode e then s.raw_ballast else t.raw_ballast)
            ≡ s.raw_ballast)
  servos_obey_modes e s h = (rudder_kept e s h, winch_kept e s h, ballast_kept e s h)

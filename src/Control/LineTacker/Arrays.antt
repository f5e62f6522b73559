-- ===== src/Control/LineTacker/Arrays.antt =====
-- Runs of control/line_tacking.cc and its arrays.
use boat.Prelude.{
  ℕ, ◌-◌, ◌≤◌, ◌<◌, ◌⊎◌, ◌≡◌, refl, sym, ap, ◌∙◌, Bool, true, false, none, some, List, [], ◌∷◌,
  arith, length, length-set, Bool-cases, inl, inr,
}
use boat.Prelude.Int.{pos}
use boat.Prelude.Floats.{Floats}
use boat.Control.LineTacker.{LineTacker, to_ℕ, advance}
use boat.Control.LineTacker.Run.{
  Output, Event, consts_msg, true_wind, wind, boat_state, control_mode, waypoints_msg, tick, step,
  run, iterate, goal_heading, Goal, Leg, leg_of, restart_at_boat, is_near, choose, start, is_zero,
  walked, nominal_to, is_disabled, send_goal,
}
use boat.Control.LineTacker.Bounds.{
  IsInBounds, process_waypoints-IsInBounds, leg_of_total, advance-on_leg, choose_total,
}

module _ (fl : Floats) where
  goal-found :
      (s : LineTacker fl) {leg : Leg fl} {h : fl.F}
      → leg_of fl (restart_at_boat fl s) ≡ some leg
      → choose fl leg
          (nominal_to fl leg (restart_at_boat fl s))
          (walked fl leg (restart_at_boat fl s))
        ≡ some h
      → goal_heading fl s
        ≡ some (record {
          heading = h;
          behind = walked fl leg (restart_at_boat fl s);
          done = (advance fl (is_near fl leg (restart_at_boat fl s)) (restart_at_boat fl s)).1;
        })
  unfolding goal_heading
  goal-found s q r = rw (goal_heading, q, r)

  restart_at_boat-IsInBounds :
      {s : LineTacker fl} → IsInBounds fl s → IsInBounds fl (restart_at_boat fl s)
  unfolding restart_at_boat
  restart_at_boat-IsInBounds {s} v = elim (Bool-cases s.recalc_zero) [
    | inl again ↦ rw again (record {
      whole = length-set s.waypoints 0 s.cur_pos ∙ v.whole;
      nonneg = v.nonneg;
      fits = v.fits;
      on_leg = v.on_leg;
    })
    | inr fixed ↦
        rw fixed (record { whole = v.whole; nonneg = v.nonneg; fits = v.fits; on_leg = v.on_leg })
  ]

  way_len-restart_at_boat : (s : LineTacker fl) → (restart_at_boat fl s).way_len ≡ s.way_len
  unfolding restart_at_boat
  way_len-restart_at_boat s = ground arith

  walked-IsInBounds :
      (leg : Leg fl) {s : LineTacker fl}
      → IsInBounds fl s
      → is_zero s.way_len ≡ false
      → IsInBounds fl (walked fl leg s)
  unfolding walked
  walked-IsInBounds leg {s} v h = record {
    whole = v.whole;
    nonneg = v.nonneg;
    fits = v.fits;
    on_leg = advance-on_leg fl (is_near fl leg s) s v h;
  }

  goal_total :
      (s : LineTacker fl)
      → IsInBounds fl s
      → is_zero s.way_len ≡ false
      → (g : Goal fl) × (goal_heading fl s ≡ some g) × IsInBounds fl g.behind
  goal_total s0 v0 h0 =
      let s = restart_at_boat fl s0 in
      let v = restart_at_boat-IsInBounds v0 in
      let h : is_zero s.way_len ≡ false = rw (way_len-restart_at_boat s0) h0 in
      let (leg, q) = leg_of_total fl s v h in
      let w = walked-IsInBounds leg v h in
      let (heading, r) =
        choose_total fl leg (nominal_to fl leg s) (walked fl leg s)
          (omega (arith, w.on_leg, w.fits)) in
      (_, goal-found s0 q r, w)

  -- A step neither leaves the arrays nor spoils the bounds, if a new list is taken from its start.
  abbrev pub restarts : Event fl → Bool
  restarts (waypoints_msg msg) = msg.restart
  restarts e = true

  send_goal-IsInBounds : (g : Goal fl) → IsInBounds fl g.behind → IsInBounds fl (send_goal fl g).0
  unfolding send_goal
  send_goal-IsInBounds g w = record {
    whole = w.whole;
    nonneg = w.nonneg;
    fits = w.fits;
    on_leg = w.on_leg;
  }

  iterate_total :
      {s : LineTacker fl}
      → IsInBounds fl s
      → (t : LineTacker fl × List (Output fl)) × (iterate fl s ≡ some t) × IsInBounds fl t.0
  unfolding iterate
  iterate_total {s} v = elim (Bool-cases (is_zero s.way_len)) [
    | inl empty ↦ ((s, []), rw empty, v)
    | inr len ↦ elim (Bool-cases (is_disabled fl s.tack_mode)) [
      | inl off ↦ ((s, []), rw (len, off), v)
      | inr live ↦
          let (g, q, w) = goal_total s v len in
          (send_goal fl g, rw (len, live, q), send_goal-IsInBounds g w)
    ]
  ]

  kept :
      {s t : LineTacker fl}
      → t.waypoints ≡ s.waypoints
      → t.way_len ≡ s.way_len
      → t.i ≡ s.i
      → IsInBounds fl s
      → IsInBounds fl t
  kept {s} {t} w l e v = record {
    whole = ap length w ∙ v.whole;
    nonneg = l ∙ v.nonneg ∙ ap (λ n. pos (to_ℕ n)) (sym l);
    fits = omega (arith, ap to_ℕ l, v.fits);
    on_leg = omega (arith, ap to_ℕ l, e, v.on_leg);
  }

  step_total :
      (e : Event fl) {s : LineTacker fl}
      → restarts e ≡ true
      → IsInBounds fl s
      → (t : LineTacker fl × List (Output fl)) × (step fl e s ≡ some t) × IsInBounds fl t.0
  unfolding step
  step_total (consts_msg c) r v = (_, refl, kept refl refl refl v)
  step_total (true_wind x y) r v = (_, refl, kept refl refl refl v)
  step_total (wind x y) r v = (_, refl, kept refl refl refl v)
  step_total (boat_state yaw position omega_z) r v = (_, refl, kept refl refl refl v)
  step_total (control_mode none) r v = (_, refl, v)
  step_total (control_mode (some m)) r v = (_, refl, kept refl refl refl v)
  step_total (waypoints_msg msg) {s} r v =
      let (t, e, w) = process_waypoints-IsInBounds fl msg {s = s} r v in ((t, []), rw e refl, w)
  step_total tick r v = iterate_total v

  abbrev pub AllRestart : List (Event fl) → Type 0
  AllRestart [] = Unit {0}
  AllRestart (e ∷ es) = (restarts e ≡ true) × AllRestart es

  run_total :
      (es : List (Event fl)) {s : LineTacker fl}
      → AllRestart es
      → IsInBounds fl s
      → (t : LineTacker fl) × (run fl es s ≡ some t) × IsInBounds fl t
  unfolding run
  run_total [] {s} r v = (s, refl, v)
  run_total (e ∷ es) {s} r v =
      let ((u, out), q, w) = step_total e {s = s} r.0 v in
      let (t, p, x) = run_total es r.1 w in (t, rw q p, x)

  start-IsInBounds : (unset : fl.F) → IsInBounds fl (start fl unset)
  unfolding start
  start-IsInBounds unset = record {
    whole = refl;
    nonneg = refl;
    fits = omega arith;
    on_leg = omega arith;
  }

  -- The node never reads or writes outside of its arrays or of the points of a message, in whatever
  -- order it gets messages and iterates: as long as every list of waypoints restarts, each run from the
  -- start of the node comes to its end, with ten waypoints at most and, unless there is none, a leg that
  -- starts at one of them.
  pub stays_in_arrays :
      (unset : fl.F) (es : List (Event fl))
      → AllRestart es
      → (t : LineTacker fl) × (run fl es (start fl unset) ≡ some t)
        × ((len : ℕ) × (t.way_len ≡ pos len) × (len ≤ 10) × ((len ≡ 0) ⊎ (t.i < len)))
  stays_in_arrays unset es r =
      let (t, q, v) = run_total es r (start-IsInBounds unset) in
      (t, q, (to_ℕ t.way_len, v.nonneg, v.fits, leg_inside t.i (to_ℕ t.way_len) v.on_leg))
    where
      leg_inside : (i len : ℕ) → i ≤ len - 1 → (len ≡ 0) ⊎ (i < len)
      leg_inside i len h = ground arith

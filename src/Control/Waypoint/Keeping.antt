-- ===== src/Control/Waypoint/Keeping.antt =====
-- Station keeping of control/waypoint_manager.cc over runs of the node.
use boat.Prelude.{ℕ, ◌+◌, ◌<◌, ◌≡◌, ◌⊎◌, inl, refl, true, List, [], ◌∷◌, arith}
use boat.Prelude.Floats.{Floats}
use boat.Control.Waypoint.{goto_start, wait, leave, station_keep, seconds, Manager, start}
use boat.Control.Waypoint.Run.{Event, iterate, step, run}
use boat.Control.Waypoint.Handlers.{
  sbus_value, sbus_switch, start_challenge, challenge_control, vision_data, tacker_state, true_wind,
  boat_state,
}
use boat.Control.Waypoint.Challenges.{do_station_keep, do_vision_search, do_obstacle_avoid}
use boat.Control.Waypoint.Trace.{all, run-keeps, before, no_challenge}

module _ (fl : Floats) where
  -- The states that `DoStationKeep` reaches.
  pub IsKeeping : Manager fl → Type 0
  IsKeeping s =
      (s.station_keep_state ≡ goto_start)
      ⊎ (s.station_keep_state ≡ wait)
      ⊎ (s.station_keep_state ≡ leave)

  step-IsKeeping : (e : Event fl) (s : Manager fl) → IsKeeping s → IsKeeping (step fl e s).0
  unfolding IsKeeping step iterate do_station_keep do_vision_search do_obstacle_avoid sbus_value
      sbus_switch challenge_control start_challenge vision_data tacker_state true_wind boat_state
  step-IsKeeping e s h = ground arith

  nothing_barred : (es : List (Event fl)) → all (λ e. true) es ≡ true
  nothing_barred [] = refl
  nothing_barred (e ∷ es) = nothing_barred es

  -- In no run does the station keeping come to the states BACK and FORTH.
  run-IsKeeping :
      (start_time : ℕ) (es : List (Event fl)) → IsKeeping (run fl es (start fl start_time).0).0
  unfolding IsKeeping start
  run-IsKeeping start_time es =
      run-keeps fl IsKeeping (λ e. true) (λ e s ok h. step-IsKeeping e s h) es _ (nothing_barred es)
        (inl refl)

  Waiting : ℕ → Manager fl → Type 0
  Waiting end s =
      (s.mode ≡ station_keep) × (s.station_keep_state ≡ wait) × (s.station_keep_end ≡ end)

  Leaving : Manager fl → Type 0
  Leaving s = (s.mode ≡ station_keep) × (s.station_keep_state ≡ leave)

  step-Waiting :
      (end : ℕ) (e : Event fl) (s : Manager fl)
      → before fl end e ≡ true
      → Waiting end s
      → Waiting end (step fl e s).0
  unfolding Waiting before step iterate do_station_keep do_vision_search do_obstacle_avoid
      sbus_value sbus_switch challenge_control start_challenge vision_data tacker_state true_wind
      boat_state
  step-Waiting end e s ok h = ground arith

  step-Leaving :
      (e : Event fl) (s : Manager fl)
      → no_challenge fl e ≡ true
      → Leaving s
      → Leaving (step fl e s).0
  unfolding Leaving no_challenge step iterate do_station_keep do_vision_search do_obstacle_avoid
      sbus_value sbus_switch challenge_control start_challenge vision_data tacker_state true_wind
      boat_state
  step-Leaving e s ok h = ground arith

  arrives :
      (now later : ℕ) (s : Manager fl)
      → s.mode ≡ station_keep
      → s.station_keep_state ≡ goto_start
      → s.tacker_done ≡ true
      → Waiting (now + seconds 280) (iterate fl now later s).0
  unfolding Waiting iterate do_station_keep
  arrives now later s m k t = ground arith

  departs :
      (end now later : ℕ) (s : Manager fl)
      → Waiting end s
      → end < now
      → Leaving (iterate fl now later s).0
  unfolding Waiting Leaving iterate do_station_keep
  departs end now later s h late = ground arith

  -- When the tacker is done with the way to the station, and as long as there is no new challenge,
  -- it waits there until the first iteration at more than 280 seconds later, whatever else happens,
  -- and from then on it leaves.
  pub station_kept :
      (s : Manager fl) (now later t u : ℕ) (es es' : List (Event fl))
      → s.mode ≡ station_keep
      → s.station_keep_state ≡ goto_start
      → s.tacker_done ≡ true
      → all (before fl (now + seconds 280)) es ≡ true
      → now + seconds 280 < t
      → all (no_challenge fl) es' ≡ true
      → let waiting = (run fl es (iterate fl now later s).0).0 in
        (waiting.station_keep_state ≡ wait)
        × ((run fl es' (iterate fl t u waiting).0).0.station_keep_state ≡ leave)
  unfolding Waiting Leaving
  station_kept s now later t u es es' m k done early late calm =
      let end = now + seconds 280 in
      let w =
        run-keeps fl (Waiting end) (before fl end) (step-Waiting end) es _ early
          (arrives now later s m k done) in
      (
        w.1,
        (run-keeps fl Leaving (no_challenge fl) step-Leaving es' _ calm
            (departs end t u _ w late)).1,
      )

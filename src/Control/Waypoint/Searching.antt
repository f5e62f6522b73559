-- ===== src/Control/Waypoint/Searching.antt =====
-- The search of control/waypoint_manager.cc for a buoy, and what it leaves the tacker at.
use boat.Prelude.{ℕ, ◌≡◌, ◌⊎◌, refl, Bool, true, false, some, List, [], ◌∷◌, arith}
use boat.Prelude.Int.{pos, ◌≤ℤ◌, ◌<ℤ◌}
use boat.Prelude.Floats.{Floats}
use boat.Control.Waypoint.{
  follow_waypoints, follow_vision, to_waypoint, vision, disabled, line_plan, cleared, no_target,
  going_to_buoy, control_mode, search_state, Manager,
}
use boat.Control.Waypoint.Run.{Event, sbus, challenge, seen, iterate, step, run}
use boat.Control.Waypoint.Handlers.{
  sbus_value, sbus_switch, start_challenge, challenge_control, vision_data, tacker_state, true_wind,
  boat_state,
}
use boat.Control.Waypoint.Challenges.{do_station_keep, do_vision_search, do_obstacle_avoid}
use boat.Control.Waypoint.Trace.{all, run-keeps, run-sends, no_challenge, autonomous, not_control}

module _ (fl : Floats) where
  -- An iteration of the vision challenge goes from the waypoints to the buoy exactly when the
  -- waypoints are done, or one has been reached, and the confidence is over its threshold; it then
  -- disables the tacker, and else sends it nothing.
  search_begins :
      (now later : ℕ) (s : Manager fl)
      → s.mode ≡ vision
      → s.vision_state ≡ follow_waypoints
      → let (s', out) = iterate fl now later s in
        (((s.tacker_done ≡ true) ⊎ (pos 1 ≤ℤ s.last_waypoint))
          × (pos 250 <ℤ s.vision_confidence)
          × (s'.vision_state ≡ follow_vision)
          × (out
              ≡ control_mode (record cleared { tacker = some disabled })
                ∷ search_state (some going_to_buoy)
                ∷ []))
        ⊎ (((¬ ((s.tacker_done ≡ true) ⊎ (pos 1 ≤ℤ s.last_waypoint)))
              ⊎ (s.vision_confidence ≤ℤ pos 250))
            × (s'.vision_state ≡ follow_waypoints)
            × (out ≡ search_state (some no_target) ∷ []))
  unfolding iterate do_vision_search
  search_begins now later s m v = ground arith

  Following : Manager fl → Type 0
  Following s = (s.mode ≡ vision) × (s.vision_state ≡ follow_vision)

  step-Following :
      (e : Event fl) (s : Manager fl)
      → no_challenge fl e ≡ true
      → Following s
      → Following (step fl e s).0
  unfolding Following no_challenge step iterate do_station_keep do_vision_search do_obstacle_avoid
      sbus_value sbus_switch challenge_control start_challenge vision_data tacker_state true_wind
      boat_state
  step-Following e s ok h = ground arith

  -- The events that leave the confidence as it is.
  pub unseeing : Event fl → Bool
  unseeing (challenge c) = false
  unseeing (sbus channel) = false
  unseeing (seen heading confidence) = false
  unseeing e = true

  Sure : Manager fl → Type 0
  Sure s = Following s × (pos 250 ≤ℤ s.vision_confidence) × (s.vision_confidence ≤ℤ pos 700)

  step-Sure : (e : Event fl) (s : Manager fl) → unseeing e ≡ true → Sure s → Sure (step fl e s).0
  unfolding Sure Following unseeing step iterate do_station_keep do_vision_search do_obstacle_avoid
      sbus_value sbus_switch challenge_control start_challenge vision_data tacker_state true_wind
      boat_state
  step-Sure e s ok h = ground arith

  step-Sure_silent :
      (e : Event fl) (s : Manager fl)
      → unseeing e ≡ true
      → Sure s
      → all (not_control fl) (step fl e s).1 ≡ true
  unfolding Sure Following unseeing not_control step iterate do_station_keep do_vision_search
      do_obstacle_avoid sbus_value sbus_switch challenge_control start_challenge vision_data
      tacker_state true_wind boat_state
  step-Sure_silent e s ok h = ground arith

  -- A search that has come to the buoy never goes back to the waypoints without a new challenge,
  -- and at a confidence from 250 to 700, until another challenge, sighting or message of the remote
  -- control, it sends the tacker nothing: one that was put back to planning when the buoy was lost
  -- goes on planning after the buoy is found again.
  pub regained_buoy_leaves_tacker :
      (es es' : List (Event fl)) (s : Manager fl)
      → s.mode ≡ vision
      → s.vision_state ≡ follow_vision
      → all (no_challenge fl) es ≡ true
      → pos 250 ≤ℤ (run fl es s).0.vision_confidence
      → (run fl es s).0.vision_confidence ≤ℤ pos 700
      → all unseeing es' ≡ true
      → ((run fl es s).0.vision_state ≡ follow_vision)
        × (all (not_control fl) (run fl es' (run fl es s).0).1 ≡ true)
  unfolding Sure Following
  regained_buoy_leaves_tacker es es' s m v calm low high blind =
      let f = run-keeps fl Following (no_challenge fl) step-Following es s calm (m, v) in
      (
        f.1,
        run-sends fl Sure unseeing (not_control fl) step-Sure step-Sure_silent es' _ blind
            (f, low, high),
      )

  OnWaypoints : Manager fl → Type 0
  OnWaypoints s = s.mode ≡ to_waypoint

  step-OnWaypoints :
      (e : Event fl) (s : Manager fl)
      → autonomous fl e ≡ true
      → OnWaypoints s
      → OnWaypoints (step fl e s).0
  unfolding OnWaypoints autonomous step iterate do_station_keep do_vision_search do_obstacle_avoid
      sbus_value sbus_switch challenge_control start_challenge vision_data tacker_state true_wind
      boat_state
  step-OnWaypoints e s ok h = ground arith

  step-OnWaypoints_silent :
      (e : Event fl) (s : Manager fl)
      → autonomous fl e ≡ true
      → OnWaypoints s
      → all (not_control fl) (step fl e s).1 ≡ true
  unfolding OnWaypoints autonomous not_control step iterate do_station_keep do_vision_search
      do_obstacle_avoid sbus_value sbus_switch challenge_control start_challenge vision_data
      tacker_state true_wind boat_state
  step-OnWaypoints_silent e s ok h = ground arith

  -- The waypoint challenge puts the order to plan a line into its message and does not send it, and
  -- neither does anything after it but another challenge or the remote control.
  pub waypoint_challenge_silent :
      (es : List (Event fl)) (s : Manager fl)
      → all (autonomous fl) es ≡ true
      → let (s', out) = challenge_control fl (some to_waypoint) s in
        (s'.control_mode_msg.tacker ≡ some line_plan)
        × (all (not_control fl) out ≡ true)
        × (all (not_control fl) (run fl es s').1 ≡ true)
  unfolding OnWaypoints not_control challenge_control start_challenge
  waypoint_challenge_silent es s calm = (
    refl,
    refl,
    run-sends fl OnWaypoints (autonomous fl) (not_control fl) step-OnWaypoints
        step-OnWaypoints_silent es _ calm refl,
  )

-- ===== src/Control/Waypoint/Run.antt =====
-- `WaypointManager::Iterate` of control/waypoint_manager.cc, and runs of the node: every handler
-- and every iteration is one step of it.
use boat.Prelude.{ℕ, Bool, Option, List, [], ◌∷◌}
use boat.Prelude.Int.{ℤ}
use boat.Prelude.Floats.{Floats}
use boat.Control.Waypoint.{
  ChallengeType, station_keep, to_waypoint, vision, obstacle, Manager, Step, and_then,
}
use boat.Control.Waypoint.Handlers.{
  sbus_value, tacker_state, challenge_control, true_wind, vision_data, boat_state,
}
use boat.Control.Waypoint.Challenges.{do_station_keep, do_vision_search, do_obstacle_avoid}

module _ (fl : Floats) where
  open fl use {F, add, sub, mul, div, neg, lt, narrow, trunc, of_int, literal, pi, atan2}

  unfoldable pub iterate : ℕ → ℕ → Manager fl → Step fl
  iterate now later s = elim s.mode [
    | station_keep ↦ do_station_keep fl now later s
    | to_waypoint ↦ (s, [])
    | vision ↦ do_vision_search fl s
    | obstacle ↦ do_obstacle_avoid fl s
  ]

  -- What happens to the node: a message on one of its queues, or an iteration.
  pub data Event : Type 0 where
    sbus : List ℤ → Event
    tacker : Bool → ℤ → Bool → Event
    challenge : Option ChallengeType → Event
    wind : F → F → Event
    seen : Option F → Option F → Event
    posture : F → Event
    tick : ℕ → ℕ → Event

  unfoldable pub step : Event → Manager fl → Step fl
  step (sbus channel) s = sbus_value fl channel s
  step (tacker done last near) s = tacker_state fl done last near s
  step (challenge c) s = challenge_control fl c s
  step (wind x y) s = true_wind fl x y s
  step (seen heading confidence) s = vision_data fl heading confidence s
  step (posture yaw) s = boat_state fl yaw s
  step (tick now later) s = iterate now later s

  unfoldable pub run : List Event → Manager fl → Step fl
  run [] s = (s, [])
  run (e ∷ es) s = and_then fl (step e s) (run es)

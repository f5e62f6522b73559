-- ===== src/Control/Waypoint/Handlers.antt =====
-- The handlers that the constructor in control/waypoint_manager.cc registers.
use boat.Prelude.{
  Bool, not, ◌&&◌, ◌||◌, Option, none, some, List, [], leb, if◌then◌else◌, length, get_or,
}
use boat.Prelude.Int.{ℤ, pos, ltb_ℤ}
use boat.Prelude.Floats.{Floats}
use boat.Control.Util.{norm_angle}
use boat.Control.Waypoint.{
  goto_start, follow_waypoints, waypoint, ChallengeType, station_keep, to_waypoint, vision,
  obstacle, auto, filtered_rc, line_plan, ControlMode, cleared, Manager, Step, send_control,
  send_heading, and_then,
}

module _ (fl : Floats) where
  open fl use {F, add, sub, mul, div, neg, lt, narrow, trunc, of_int, literal, pi, atan2}

  -- The switch on the third channel of the remote control.
  unfoldable pub sbus_switch : ℤ → Manager fl → Step fl
  sbus_switch channel s =
      let manual = ltb_ℤ channel (pos 1000) in
      let changed = if manual then not s.last_sbus_manual else s.last_sbus_manual in
      let m = if manual then filtered_rc else auto in
      if (ltb_ℤ channel (pos 800) || ltb_ℤ (pos 1200) channel) && changed
      then send_control fl (record s.control_mode_msg { rudder_mode = some m; winch_mode = some m })
          (record s { last_sbus_manual = manual })
      else (s, [])

  unfoldable pub sbus_value : List ℤ → Manager fl → Step fl
  sbus_value channel s =
      if leb 3 (length channel)
      then sbus_switch (get_or channel 2 (pos 0)) (record s { control_mode_msg = cleared })
      else (s, [])

  unfoldable pub tacker_state : Bool → ℤ → Bool → Manager fl → Step fl
  tacker_state done last near s =
      (record s { tacker_done = done; last_waypoint = last; near_waypoint = near }, [])

  -- Automatic steering along the planned line.
  abbrev planning : Manager fl → ControlMode
  planning s = record s.control_mode_msg {
    rudder_mode = some auto;
    winch_mode = some auto;
    tacker = some line_plan;
  }

  unfoldable pub start_challenge : ChallengeType → Manager fl → Step fl
  start_challenge station_keep s =
      send_control fl (planning s) (record s { station_keep_state = goto_start })
  start_challenge to_waypoint s = (record s { control_mode_msg = planning s }, [])
  start_challenge vision s =
      send_control fl (planning s) (record s { vision_state = follow_waypoints })
  start_challenge obstacle s = send_control fl (planning s) (record s { obstacle_state = waypoint })

  unfoldable pub challenge_control : Option ChallengeType → Manager fl → Step fl
  challenge_control c s =
      and_then fl (send_heading fl (record s.heading_cmd_msg { extra_sail = some (literal 0 1) }) s)
        (λ s'. elim c [
          | none ↦ (s', [])
          | some challenge ↦ start_challenge challenge (record s' { mode = challenge })
        ])

  unfoldable pub true_wind : F → F → Manager fl → Step fl
  true_wind x y s = (record s { upwind_dir = atan2 (neg y) (neg x) }, [])

  unfoldable pub vision_data : Option F → Option F → Manager fl → Step fl
  vision_data (some heading) (some confidence) s = (
    record s {
      vision_abs_heading = narrow (norm_angle fl (narrow (add heading s.boat_yaw)));
      vision_confidence = trunc confidence;
    },
    [],
  )
  vision_data (some heading) none s = (s, [])
  vision_data none confidence s = (s, [])

  unfoldable pub boat_state : F → Manager fl → Step fl
  boat_state yaw s = (record s { boat_yaw = yaw }, [])

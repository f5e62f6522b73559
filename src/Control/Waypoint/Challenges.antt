-- ===== src/Control/Waypoint/Challenges.antt =====
-- `DoStationKeep`, `DoVisionSearch` and `DoObstacleAvoid` of control/waypoint_manager.cc.
use boat.Prelude.{ℕ, ◌+◌, not, ◌&&◌, ◌||◌, some, [], ltb, if◌then◌else◌}
use boat.Prelude.Int.{pos, ltb_ℤ, leb_ℤ}
use boat.Prelude.Floats.{Floats}
use boat.Control.Util.{norm_angle}
use boat.Control.Waypoint.{
  goto_start, wait, back, forth, leave, follow_waypoints, follow_vision, waypoint, avoid, disabled,
  line_plan, Search, no_target, going_to_buoy, at_buoy, confidence_threshold, found_threshold,
  obstacle_threshold, next_int, seconds, HeadingCmd, Manager, Step, send_tacker, send_tacker_alone,
  send_heading, and_then, clear_heading, send_search,
}

module _ (fl : Floats) where
  open fl use {F, add, sub, mul, div, neg, lt, narrow, trunc, of_int, literal, pi, atan2}

  -- A heading off the wind, and with more or less sail.
  abbrev headed : F → HeadingCmd fl → HeadingCmd fl
  headed heading msg = record msg { heading = some heading }

  abbrev upwind_sail : F → Manager fl → HeadingCmd fl
  upwind_sail turn s = record {
    heading = some (narrow (add s.upwind_dir turn));
    extra_sail = some (literal 3 2);
  }

  -- `0 * M_PI / 8`.
  abbrev straight : F
  straight = div (mul (of_int (pos 0)) pi) (of_int (pos 8))

  -- `DoStationKeep`, when the clock shows `now` at its first reading and `later` at its second.
  unfoldable pub do_station_keep : ℕ → ℕ → Manager fl → Step fl
  do_station_keep now later s = elim s.station_keep_state [
    | goto_start ↦
        if s.tacker_done
        then send_tacker_alone fl disabled
            (record s { station_keep_end = now + seconds 280; station_keep_state = wait })
        else (s, [])
    | wait ↦
        and_then fl (and_then fl (send_heading fl (upwind_sail straight s) s) (clear_heading fl))
          (λ s'.
            if ltb s'.station_keep_end now
            then send_tacker fl disabled
                (record s' { station_keep_state = leave; station_keep_end = later + seconds 20 })
            else (s', []))
    | back ↦
        and_then fl
          (send_heading fl
            (record {
              extra_sail = some (literal 0 1);
              heading = some (narrow (norm_angle fl (sub s.upwind_dir (mul pi (literal 1 2)))));
            })
            s)
          (λ s'.
            if ltb s'.station_keep_end now
            then (
              record s' { station_keep_state = leave; station_keep_end = later + seconds 90 },
              [],
            )
            else (s', []))
    | forth ↦
        and_then fl
          (and_then fl (send_heading fl (upwind_sail (div pi (of_int (pos 8))) s) s)
            (clear_heading fl))
          (λ s'. (
            if ltb s'.station_keep_end now then record s' { station_keep_state = leave } else s',
            [],
          ))
    | leave ↦
        send_heading fl
          (record {
            extra_sail = some (literal 0 1);
            heading = some (narrow (norm_angle fl (add s.upwind_dir (mul pi (literal 3 4)))));
          })
          s
  ]

  abbrev searching : Search → Manager fl → Manager fl
  searching state s = record s { search_state_msg = some state }

  unfoldable pub do_vision_search : Manager fl → Step fl
  do_vision_search s = elim s.vision_state [
    | follow_waypoints ↦
        and_then fl
          (if (s.tacker_done || leb_ℤ (pos 1) s.last_waypoint)
              && ltb_ℤ confidence_threshold s.vision_confidence
            then send_tacker_alone fl disabled
                (record (searching going_to_buoy s) { vision_state = follow_vision })
            else (searching no_target s, []))
          (send_search fl)
    | follow_vision ↦
        and_then fl
          (and_then fl (send_heading fl (headed s.vision_abs_heading s.heading_cmd_msg) s) (λ s'.
            if ltb_ℤ found_threshold s'.vision_confidence
            then and_then fl
                (and_then fl (send_heading fl (upwind_sail straight s') (searching at_buoy s'))
                  (clear_heading fl))
                (send_tacker fl disabled)
            else if ltb_ℤ s'.vision_confidence confidence_threshold
            then send_tacker_alone fl line_plan s'
            else (s', [])))
          (send_search fl)
  ]

  -- A quarter turn away from what is seen.
  abbrev avoid_heading : Manager fl → F
  avoid_heading s = mul (div pi (literal 2 1)) (
      if lt (of_int (pos 0)) (norm_angle fl (narrow (sub s.vision_abs_heading s.boat_yaw)))
      then literal 1 1
      else neg (literal 1 1))

  unfoldable pub do_obstacle_avoid : Manager fl → Step fl
  do_obstacle_avoid s = elim s.obstacle_state [
    | waypoint ↦
        if not s.near_waypoint && ltb_ℤ obstacle_threshold s.vision_confidence
        then send_tacker_alone fl disabled (record s {
          obs_cnt = pos 0;
          initial_avoid_diff_heading = narrow (avoid_heading s);
          obstacle_state = avoid;
        })
        else (s, [])
    | avoid ↦
        and_then fl
          (send_heading fl
            (headed (narrow (norm_angle fl (narrow (add s.initial_avoid_diff_heading s.boat_yaw))))
              s.heading_cmd_msg)
            (record s { obs_cnt = next_int s.obs_cnt }))
          (λ s'.
            if ltb_ℤ (pos 50) s'.obs_cnt && ltb_ℤ s'.vision_confidence obstacle_threshold
            then send_tacker_alone fl line_plan (record s' { obstacle_state = waypoint })
            else (s', []))
  ]

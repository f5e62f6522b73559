-- ===== src/Control/LineTacker/Lines.antt =====
-- Keeping to the line between two waypoints: `DistanceFromLine`, `ApparentWind`, and the headings of
-- the mode LINE in control/line_tacking.cc.
use boat.Prelude.{if◌then◌else◌}
use boat.Prelude.Floats.{Floats}
use boat.Control.Util.{norm_angle}
use boat.Control.LineTacker.{LineTacker, Point}
use boat.Control.LineTacker.Rewards.{fadd, fsub, fmul, fdiv, upwind}

module _ (fl : Floats) where
  open fl use {F, add, sub, mul, div, neg, lt, le, narrow, literal, pi, abs, sqrt}

  unfoldable pub distance_from_line : Point fl → Point fl → Point fl → F
  distance_from_line start end loc =
      if lt (abs (sub end.y start.y)) (literal 1 1000)
      then narrow (sub (div (add start.y end.y) (literal 2 1)) loc.y)
      else if lt (abs (sub end.x start.x)) (literal 1 1000)
      then narrow (sub (div (add start.x end.x) (literal 2 1)) loc.x)
      else let perp_slope = narrow (div (neg (sub end.x start.x)) (sub end.y start.y)) in
        let perp_intercept = narrow (sub loc.y (mul perp_slope loc.x)) in
        let orig_slope = fdiv fl (neg (literal 1 1)) perp_slope in
        let orig_intercept = narrow (sub end.y (mul orig_slope end.x)) in
        let x = fdiv fl (fsub fl perp_intercept orig_intercept) (fsub fl orig_slope perp_slope) in
        let y = fadd fl (fmul fl perp_slope x) perp_intercept in
        let dx = narrow (sub x loc.x) in
        let dy = narrow (sub y loc.y) in
        let dist = narrow (sqrt (fadd fl (fmul fl dx dx) (fmul fl dy dy))) in
        fmul fl dist (if lt (literal 0 1) dx then literal 1 1 else neg (literal 1 1))

  unfoldable pub apparent_wind : LineTacker fl → F
  apparent_wind s = narrow (norm_angle fl s.apparent_wind_dir)

  unfoldable pub min_closehaul : LineTacker fl → F
  min_closehaul s = narrow (norm_angle fl (fsub fl (upwind fl s) s.consts.close_haul_angle))

  unfoldable pub max_closehaul : LineTacker fl → F
  max_closehaul s = narrow (norm_angle fl (fadd fl (upwind fl s) s.consts.close_haul_angle))

  -- The heading, from that of the waypoint, the distance to the line and the bound on it.
  unfoldable pub line_heading : F → F → F → LineTacker fl → F
  line_heading nominal_heading dist_to_line bound s =
      let goal_wind_diff = narrow (norm_angle fl (fsub fl nominal_heading (upwind fl s))) in
      let diff_min_close = narrow (abs (norm_angle fl (fsub fl (min_closehaul s) s.cur_theta))) in
      let diff_max_close = narrow (abs (norm_angle fl (fsub fl (max_closehaul s) s.cur_theta))) in
      if lt (fadd fl s.consts.close_haul_angle (literal 1 10)) (abs goal_wind_diff)
      then nominal_heading
      else if le bound (abs dist_to_line)
      then (if lt (literal 0 1) (norm_angle fl (fsub fl s.wind_dir nominal_heading))
          then max_closehaul s
          else min_closehaul s)
      else if lt (abs (apparent_wind s)) (div pi (literal 2 1))
      then (if lt (apparent_wind s) (literal 0 1) then min_closehaul s else max_closehaul s)
      else (if lt diff_min_close diff_max_close then min_closehaul s else max_closehaul s)

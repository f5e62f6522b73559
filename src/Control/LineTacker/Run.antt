-- ===== src/Control/LineTacker/Run.antt =====
-- `GoalHeading`, `Iterate` and the handlers of control/line_tacking.cc, and runs of the node. `none`
-- is an access outside of an array.
use boat.Prelude.{
  ℕ, ◌+◌, Bool, true, false, Option, none, some, List, [], ◌∷◌, ◌==◌, if◌then◌else◌, get_elem?, set,
  replicate, ◌>>=◌,
}
use boat.Prelude.Int.{ℤ, pos, negsuc}
use boat.Prelude.Floats.{Floats}
use boat.Control.Util.{norm_angle, gps_lat_lon_scale}
use boat.Control.Waypoint.{Tacker, no_tacker, line, reward, disabled, HeadingCmd, cleared_heading}
use boat.Control.LineTacker.{
  LineTacker, Point, WaypointList, TackerConstants, bounds, waypoint_moe, process_waypoints,
  advance, rem, n_waypoints,
}
use boat.Control.LineTacker.Rewards.{fadd, fmul, last_heading, best_heading}
use boat.Control.LineTacker.Lines.{min_closehaul, max_closehaul, line_heading, distance_from_line}

-- An `int` that is zero.
abbrev pub is_zero : ℤ → Bool
is_zero (pos n) = n == 0
is_zero (negsuc n) = false

module _ (fl : Floats) where
  open fl use {F, add, sub, mul, div, neg, lt, narrow, literal, atan2, sqrt}

  pub data Output : Type 0 where
    waypoints : WaypointList fl → Output
    tacker_state : Bool → ℕ → Output
    heading_cmd : HeadingCmd fl → Output
    tacker_consts : TackerConstants fl → Output

  pub record Leg : Type 0 where
    pub start : Point fl
    pub end : Point fl
    pub moe : F

  -- The ends of the current leg and the margin of its end, out of the arrays.
  unfoldable pub leg_of : LineTacker fl → Option Leg
  unfolding rem
  leg_of s =
      let next = rem (s.i + 1) s.way_len in
      elim (get_elem? s.waypoints s.i) [
        | none ↦ none
        | some start ↦ elim (get_elem? s.waypoints next) [
          | none ↦ none
          | some end ↦ elim (get_elem? (waypoint_moe fl) next) [
            | none ↦ none
            | some moe ↦ some (record { start = start; end = end; moe = moe })
          ]
        ]
      ]

  unfoldable pub restart_at_boat : LineTacker fl → LineTacker fl
  restart_at_boat s =
      if s.recalc_zero then record s { waypoints = set s.waypoints 0 s.cur_pos } else s

  abbrev pub dx_to : Leg → LineTacker fl → F
  dx_to leg s = narrow (sub leg.end.x s.cur_pos.x)

  abbrev pub dy_to : Leg → LineTacker fl → F
  dy_to leg s = narrow (sub leg.end.y s.cur_pos.y)

  unfoldable pub nominal_to : Leg → LineTacker fl → F
  nominal_to leg s = narrow (atan2 (dy_to leg s) (dx_to leg s))

  unfoldable pub dist_to : Leg → LineTacker fl → F
  dist_to leg s =
      let dx = dx_to leg s in
      let dy = dy_to leg s in narrow (sqrt (fadd fl (fmul fl dy dy) (fmul fl dx dx)))

  unfoldable pub avgscale : LineTacker fl → F
  avgscale s =
      let (latscale, lonscale) = gps_lat_lon_scale fl s.cur_pos.y in
      mul (add latscale lonscale) (literal 1 2)

  unfoldable pub is_near : Leg → LineTacker fl → Bool
  is_near leg s = lt (dist_to leg s) (div leg.moe (avgscale s))

  -- The choice by the tacker's mode, behind the walk along the waypoints.
  unfoldable pub choose : Leg → F → LineTacker fl → Option F
  choose leg nominal s = elim s.tack_mode [
    | reward ↦ some (
        best_heading fl nominal
          (nominal ∷ last_heading fl s ∷ min_closehaul fl s ∷ max_closehaul fl s ∷ []) s)
    | line ↦ elim (get_elem? (bounds fl) s.i) [
      | none ↦ none
      | some bound ↦
          let off = narrow (mul (distance_from_line fl leg.start leg.end s.cur_pos) (avgscale s)) in
          some (line_heading fl nominal off bound s)
    ]
    | _ ↦ some nominal
  ]

  pub record Goal : Type 0 where
    pub heading : F
    pub behind : LineTacker fl
    pub done : Bool

  -- The distance and the waypoint that `GoalHeading` sets.
  unfoldable pub walked : Leg → LineTacker fl → LineTacker fl
  walked leg s = record s {
    cur_dist = narrow (mul (dist_to leg s) (avgscale s));
    i = (advance fl (is_near leg s) s).0;
  }

  unfoldable pub goal_heading : LineTacker fl → Option Goal
  goal_heading s0 =
      let s = restart_at_boat s0 in
      elim (leg_of s) [
        | none ↦ none
        | some leg ↦ elim (choose leg (nominal_to leg s) (walked leg s)) [
          | none ↦ none
          | some h ↦ some (record {
            heading = h;
            behind = walked leg s;
            done = (advance fl (is_near leg s) s).1;
          })
        ]
      ]

  -- `ReadWaypointsFromFile`; `none` is a file that cannot be read.
  unfoldable pub read_waypoints :
      Option (WaypointList fl) → LineTacker fl → Option (LineTacker fl × List Output)
  read_waypoints none s = some (s, [])
  read_waypoints (some way_list) s =
      process_waypoints fl way_list s >>= λ t. some (t, waypoints way_list ∷ [])

  abbrev pub sends_heading : Tacker → Bool
  sends_heading line = true
  sends_heading reward = true
  sends_heading no_tacker = true
  sends_heading m = false

  abbrev pub is_disabled : Tacker → Bool
  is_disabled disabled = true
  is_disabled m = false

  -- The messages of an iteration that has found a heading.
  unfoldable pub send_goal : Goal → LineTacker fl × List Output
  send_goal g =
      let cmd : HeadingCmd fl = record {
        heading = some (narrow g.heading);
        extra_sail = some (literal 0 1);
      } in
      let t = record g.behind { heading_msg = cmd } in
      let consts = tacker_consts t.consts ∷ [] in
      (
        t,
        tacker_state g.done t.i
            ∷ (if sends_heading t.tack_mode then heading_cmd cmd ∷ consts else consts),
      )

  unfoldable pub iterate : LineTacker fl → Option (LineTacker fl × List Output)
  iterate s =
      if is_zero s.way_len
      then some (s, [])
      else if is_disabled s.tack_mode
      then some (s, [])
      else elim (goal_heading s) [ none ↦ none | some g ↦ some (send_goal g) ]

  pub data Event : Type 0 where
    consts_msg : TackerConstants fl → Event
    true_wind : F → F → Event
    wind : F → F → Event
    boat_state : F → Point fl → F → Event
    control_mode : Option Tacker → Event
    waypoints_msg : WaypointList fl → Event
    tick : Event

  unfoldable pub step : Event → LineTacker fl → Option (LineTacker fl × List Output)
  step (consts_msg c) s = some (record s { consts = c }, [])
  step (true_wind x y) s = some (record s { wind_dir = narrow (atan2 y x) }, [])
  step (wind x y) s = some (record s { apparent_wind_dir = narrow (atan2 y x) }, [])
  step (boat_state yaw position omega_z) s = some (
    record s { cur_theta = yaw; cur_pos = position; cur_yaw_rate = narrow (norm_angle fl omega_z) },
    [],
  )
  step (control_mode none) s = some (s, [])
  step (control_mode (some m)) s = some (record s { tack_mode = m }, [])
  step (waypoints_msg msg) s = process_waypoints fl msg s >>= λ t. some (t, [])
  step tick s = iterate s

  abbrev pub and_then :
      Option (LineTacker fl × List Output)
      → (LineTacker fl → Option (LineTacker fl))
      → Option (LineTacker fl)
  and_then none f = none
  and_then (some (t, out)) f = f t

  unfoldable pub run : List Event → LineTacker fl → Option (LineTacker fl)
  run [] s = some s
  run (e ∷ es) s = and_then (step e s) (run es)

  -- The node before it has waypoints; `unset` stands for the floats that are not initialised.
  unfoldable pub start : F → LineTacker fl
  start unset =
      let nowhere : Point fl = record { x = unset; y = unset } in
      record {
        waypoints = replicate n_waypoints nowhere;
        i = 0;
        msg_i_offset = 0;
        way_len = pos 0;
        recalc_zero = false;
        repeat = false;
        cur_pos = record { x = literal 0 1; y = literal 0 1 };
        cur_dist = unset;
        wind_dir = literal 0 1;
        apparent_wind_dir = unset;
        cur_theta = literal 0 1;
        cur_yaw_rate = unset;
        tack_mode = no_tacker;
        consts = record {
          close_haul_angle = literal 9 10;
          in_irons_cost = literal 3 1;
          near_goal_cost = literal 3 1;
          hysteresis_cost = literal 13 10;
          diff_yaw_cost = literal 1 1;
          momentum_cost = literal 1 1;
          tacking_cost = literal 0 1;
        };
        heading_msg = cleared_heading fl;
      }

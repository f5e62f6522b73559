-- ===== src/Control/LineTacker.antt =====
-- `LineTacker` of control/line_tacking.h and control/line_tacking.cc, the node that heads for one
-- waypoint after the other: its state, and how it takes a list of waypoints and walks along it.
pub mod Rewards
pub mod Lines
pub mod Run
pub mod Bounds
pub mod Arrays
pub mod Walk
pub mod Best
mod Tests
use boat.Prelude.{
  ℕ, zero, suc, ◌+◌, ◌-◌, ◌%◌, min, Bool, true, false, not, Option, none, some, List, [], ◌∷◌, ltb,
  leb, ◌==◌, if◌then◌else◌, length, get_elem?, set, ◌>>=◌,
}
use boat.Prelude.Int.{ℤ, pos, negsuc, sub_ℕ, ◌+ℤ◌, ltb_ℤ}
use boat.Prelude.Floats.{Floats}
use boat.Control.Waypoint.{Tacker, HeadingCmd}

abbrev pub n_waypoints : ℕ
n_waypoints = 10

-- `%` on a number that is not negative, by any but zero.
pub rem : ℕ → ℤ → ℕ
rem a (pos n) = a % n
rem a (negsuc n) = a % suc n

pub min_ℤ : ℤ → ℤ → ℤ
min_ℤ a b = if ltb_ℤ b a then b else a

abbrev pub to_ℕ : ℤ → ℕ
to_ℕ (pos n) = n
to_ℕ (negsuc n) = 0

module _ (fl : Floats) where
  open fl use {F, literal}

  pub record Point : Type 0 where
    pub x : F
    pub y : F

  -- `msg::WaypointList`, its defaults filled in.
  pub record WaypointList : Type 0 where
    pub points : List Point
    pub restart : Bool
    pub defined_start : Bool
    pub repeat : Bool

  -- `msg::TackerConstants`.
  pub record TackerConstants : Type 0 where
    pub close_haul_angle : F
    pub in_irons_cost : F
    pub near_goal_cost : F
    pub hysteresis_cost : F
    pub diff_yaw_cost : F
    pub momentum_cost : F
    pub tacking_cost : F

  pub record LineTacker : Type 0 where
    pub waypoints : List Point
    pub i : ℕ
    pub msg_i_offset : ℕ
    pub way_len : ℤ
    pub recalc_zero : Bool
    pub repeat : Bool
    pub cur_pos : Point
    pub cur_dist : F
    pub wind_dir : F
    pub apparent_wind_dir : F
    pub cur_theta : F
    pub cur_yaw_rate : F
    pub tack_mode : Tacker
    pub consts : TackerConstants
    pub heading_msg : HeadingCmd fl

  abbrev pub bounds : List F
  bounds =
      literal 20 1
      ∷ literal 20 1
      ∷ literal 20 1
      ∷ literal 20 1
      ∷ literal 20 1
      ∷ literal 20 1
      ∷ literal 20 1
      ∷ literal 20 1
      ∷ literal 20 1
      ∷ literal 20 1
      ∷ []

  abbrev pub waypoint_moe : List F
  waypoint_moe =
      literal 10 1
      ∷ literal 10 1
      ∷ literal 10 1
      ∷ literal 50 1
      ∷ literal 10 1
      ∷ literal 10 1
      ∷ literal 10 1
      ∷ literal 10 1
      ∷ literal 10 1
      ∷ literal 10 1
      ∷ []

  -- A write to an array; `none` is one outside of it.
  abbrev pub store : List Point → ℕ → Point → Option (List Point)
  store waypoints i pt = if ltb i (length waypoints) then some (set waypoints i pt) else none

  -- The loop of `ProcessWaypoints` from the round `k` on, for `rounds` more. `none` is an access outside
  -- of the message or of the array.
  pub copy_points : ℕ → ℕ → ℕ → ℕ → List Point → List Point → Option (List Point)
  copy_points zero k offset starti points waypoints = some waypoints
  copy_points (suc rounds) k offset starti points waypoints = do
    pt ← get_elem? points (k + starti)
    waypoints' ← store waypoints (k + offset) pt
    copy_points rounds (k + 1) offset starti points waypoints'

  pub process_waypoints : WaypointList → LineTacker → Option LineTacker
  unfolding min_ℤ copy_points
  process_waypoints msg s =
      let starti = if msg.restart then 0 else s.msg_i_offset + s.i in
      let offset = if msg.defined_start then 0 else 1 in
      let cnt = min_ℤ (sub_ℕ (length msg.points) starti) (sub_ℕ n_waypoints offset) in
      do
        waypoints ← copy_points (to_ℕ cnt) 0 offset starti msg.points s.waypoints
        some (record s {
          recalc_zero = not msg.defined_start;
          repeat = msg.repeat;
          waypoints = waypoints;
          i = 0;
          msg_i_offset = starti;
          way_len = cnt +ℤ pos offset;
        })

  -- What being near the next waypoint does to `i_`, and whether the last one is reached.
  unfoldable pub advance : Bool → LineTacker → ℕ × Bool
  unfolding rem
  advance near s =
      if near
      then (if ltb_ℤ (pos (s.i + 2)) s.way_len
          then (s.i + 1, false)
          else if s.repeat
          then (rem (s.i + 1) s.way_len, true)
          else (s.i, true))
      else (s.i, false)

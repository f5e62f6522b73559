-- ===== src/Control/LineTacker/Rewards.antt =====
-- The rewards of control/line_tacking.cc for a heading, and the choice of the best one.
use boat.Prelude.{Bool, not, ◌&&◌, none, some, List, [], ◌∷◌, if◌then◌else◌}
use boat.Prelude.Floats.{Floats, fmin, fmax}
use boat.Control.Util.{norm_angle}
use boat.Control.LineTacker.{LineTacker}

module _ (fl : Floats) where
  open fl use {F, add, sub, mul, div, neg, lt, narrow, literal, pi, abs, sin}

  -- The operations on floats.
  abbrev pub fadd : F → F → F
  fadd a b = narrow (add a b)

  abbrev pub fsub : F → F → F
  fsub a b = narrow (sub a b)

  abbrev pub fmul : F → F → F
  fmul a b = narrow (mul a b)

  abbrev pub fdiv : F → F → F
  fdiv a b = narrow (div a b)

  abbrev pub last_heading : LineTacker fl → F
  last_heading s = elim s.heading_msg.heading [ none ↦ literal 0 1 | some h ↦ h ]

  unfoldable pub upwind : LineTacker fl → F
  upwind s = narrow (norm_angle fl (sub s.wind_dir pi))

  unfoldable pub in_irons_reward : F → LineTacker fl → F
  in_irons_reward heading s =
      let abswdiff = narrow (abs (norm_angle fl (fsub heading (upwind s)))) in
      narrow (fmin fl (div (fmul abswdiff (literal 2 1)) pi) (literal 1 1))

  unfoldable pub desirability_reward : F → F → LineTacker fl → F
  desirability_reward heading nominal_heading s =
      let normdiff = narrow (div (norm_angle fl (fsub heading nominal_heading)) pi) in
      let near = fmax fl (fmin fl (div s.cur_dist (literal 20 1)) (literal 3 1)) (literal 33 100) in
      narrow (mul (fsub (literal 1 1) (fmul normdiff normdiff)) near)

  unfoldable pub yaw_part : F → LineTacker fl → F
  yaw_part heading s = narrow (div (norm_angle fl (fsub heading s.cur_theta)) pi)

  unfoldable pub momentum_reward : F → LineTacker fl → F
  momentum_reward heading s =
      let diff = yaw_part heading s in
      let side = if lt (literal 0 1) diff then literal 1 1 else neg (literal 1 1) in
      let norm_yaw_rate = narrow (mul (div s.cur_yaw_rate pi) side) in
      fmul (fsub (literal 1 1) (fmul diff diff)) norm_yaw_rate

  unfoldable pub cost_to_go_reward : F → LineTacker fl → F
  cost_to_go_reward heading s = let diff = yaw_part heading s in fsub (literal 1 1) (fmul diff diff)

  unfoldable pub requires_tacking_reward : F → LineTacker fl → F
  requires_tacking_reward heading s =
      let diff = narrow (norm_angle fl (fsub heading s.cur_theta)) in
      let wdiff = narrow (norm_angle fl (add (fsub s.cur_theta s.wind_dir) pi)) in
      let b = fadd wdiff diff in
      abs (fadd (fsub (fsub b wdiff) (narrow (sin b))) (narrow (sin wdiff)))

  unfoldable pub indecision_reward : F → LineTacker fl → F
  indecision_reward heading s =
      let diff = narrow (div (norm_angle fl (fsub heading (last_heading s))) pi) in
      fsub (literal 1 1) (fmul diff diff)

  unfoldable pub is_valid_heading : F → LineTacker fl → Bool
  is_valid_heading heading s =
      not (lt (abs (norm_angle fl (add (fsub heading s.wind_dir) pi))) (div pi (literal 4 1)))

  -- The weighted sum, from left to right.
  unfoldable pub reward : F → F → LineTacker fl → F
  reward nominal_heading h s =
      let c = s.consts in
      fadd
        (fadd
          (fadd
            (fadd
              (fadd (fmul c.in_irons_cost (in_irons_reward h s))
                (fmul c.near_goal_cost (desirability_reward h nominal_heading s)))
              (fmul c.hysteresis_cost (indecision_reward h s)))
            (fmul c.diff_yaw_cost (cost_to_go_reward h s)))
          (fmul c.momentum_cost (momentum_reward h s)))
        (fmul c.tacking_cost (requires_tacking_reward h s))

  -- The loop over the possible headings, with what is best so far.
  unfoldable pub best_from : (F → F) → (F → Bool) → List F → F → F → F × F
  best_from reward_of is_valid [] max_reward best_heading = (max_reward, best_heading)
  best_from reward_of is_valid (h ∷ hs) max_reward best_heading =
      let better = is_valid h && lt max_reward (reward_of h) in
      best_from reward_of is_valid hs (if better then reward_of h else max_reward)
        (if better then h else best_heading)

  unfoldable pub best_heading : F → List F → LineTacker fl → F
  best_heading nominal_heading possible_headings s =
      (best_from (λ h. reward nominal_heading h s) (λ h. is_valid_heading h s) possible_headings
        (literal 0 1) nominal_heading).1

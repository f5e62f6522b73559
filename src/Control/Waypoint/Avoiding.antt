-- ===== src/Control/Waypoint/Avoiding.antt =====
-- How long control/waypoint_manager.cc avoids an obstacle.
use boat.Prelude.{ℕ, suc, ◌+◌, ◌≤◌, ◌≡◌, subst, ◌⊎◌, refl, true, some, List, [], ◌∷◌, arith}
use boat.Prelude.Int.{pos, ◌≤ℤ◌, ◌<ℤ◌}
use boat.Prelude.Floats.{Floats}
use boat.Control.Waypoint.{
  waypoint, avoid, obstacle, line_plan, next_int, control_mode, heading_cmd, Manager,
}
use boat.Control.Waypoint.Run.{Event, tick, iterate, step, run}
use boat.Control.Waypoint.Handlers.{
  sbus_value, sbus_switch, start_challenge, challenge_control, vision_data, tacker_state, true_wind,
  boat_state,
}
use boat.Control.Waypoint.Challenges.{do_station_keep, do_vision_search, do_obstacle_avoid}
use boat.Control.Waypoint.Trace.{all, no_challenge}

module _ (fl : Floats) where
  -- The number of iterations in a run.
  pub ticks : List (Event fl) → ℕ
  ticks [] = 0
  ticks (tick now later ∷ es) = suc (ticks es)
  ticks (_ ∷ es) = ticks es

  pub IsAvoiding : ℕ → Manager fl → Type 0
  IsAvoiding n s = (s.mode ≡ obstacle) × (s.obstacle_state ≡ avoid) × (s.obs_cnt ≡ pos n)

  step-IsAvoiding :
      (n : ℕ) (e : Event fl) (s : Manager fl)
      → no_challenge fl e ≡ true
      → n + ticks (e ∷ []) ≤ 50
      → IsAvoiding n s
      → IsAvoiding (n + ticks (e ∷ [])) (step fl e s).0
  unfolding IsAvoiding ticks no_challenge next_int step iterate do_station_keep do_vision_search
      do_obstacle_avoid sbus_value sbus_switch challenge_control start_challenge vision_data
      tacker_state true_wind boat_state
  step-IsAvoiding n e s ok b h = ground arith

  ticks-cons : (e : Event fl) (es : List (Event fl)) → ticks (e ∷ es) ≡ ticks (e ∷ []) + ticks es
  unfolding ticks
  ticks-cons e es = ground arith

  ticks-nil : ticks [] ≡ 0
  unfolding ticks
  ticks-nil = refl

  run-IsAvoiding :
      (n : ℕ) (es : List (Event fl)) (s : Manager fl)
      → all (no_challenge fl) es ≡ true
      → n + ticks es ≤ 50
      → IsAvoiding n s
      → IsAvoiding (n + ticks es) (run fl es s).0
  unfolding run
  run-IsAvoiding n [] s ok b h = subst (λ k. IsAvoiding k s) (omega (arith, ticks-nil)) h
  run-IsAvoiding n (e ∷ es) s ok b h =
      subst (λ k. IsAvoiding k (run fl es (step fl e s).0).0) (omega (arith, ticks-cons e es))
        (run-IsAvoiding (n + ticks (e ∷ [])) es (step fl e s).0 (ground arith)
          (omega (arith, ticks-cons e es))
          (step-IsAvoiding n e s (ground arith) (omega (arith, ticks-cons e es)) h))

  start-IsAvoiding :
      (s : Manager fl)
      → s.mode ≡ obstacle
      → s.obstacle_state ≡ avoid
      → s.obs_cnt ≡ pos 0
      → IsAvoiding 0 s
  unfolding IsAvoiding
  start-IsAvoiding s m o z = (m, o, z)

  last_tick :
      (now later : ℕ) (s : Manager fl)
      → IsAvoiding 50 s
      → let (s', out) = iterate fl now later s in
        (s.obstacle_state ≡ avoid)
        × (((s.vision_confidence <ℤ pos 200)
              × (s'.obstacle_state ≡ waypoint)
              × (s'.control_mode_msg.tacker ≡ some line_plan)
              × (out ≡ heading_cmd s'.heading_cmd_msg ∷ control_mode s'.control_mode_msg ∷ []))
            ⊎ ((pos 200 ≤ℤ s.vision_confidence)
                × (s'.obstacle_state ≡ avoid)
                × (out ≡ heading_cmd s'.heading_cmd_msg ∷ [])))
  unfolding IsAvoiding iterate do_obstacle_avoid next_int
  last_tick now later s h = ground arith

  -- However the confidence changes, an obstacle is avoided for 50 iterations without an end as long
  -- as there is no new challenge. The 51st iteration ends it exactly if the confidence is then
  -- below its threshold, and gives the tacker its line plan back.
  pub avoided_51_times :
      (es : List (Event fl)) (now later : ℕ) (s : Manager fl)
      → s.mode ≡ obstacle
      → s.obstacle_state ≡ avoid
      → s.obs_cnt ≡ pos 0
      → all (no_challenge fl) es ≡ true
      → ticks es ≡ 50
      → let s' = (run fl es s).0 in
        let (s'', out) = iterate fl now later s' in
        (s'.obstacle_state ≡ avoid)
        × (((s'.vision_confidence <ℤ pos 200)
              × (s''.obstacle_state ≡ waypoint)
              × (s''.control_mode_msg.tacker ≡ some line_plan)
              × (out ≡ heading_cmd s''.heading_cmd_msg ∷ control_mode s''.control_mode_msg ∷ []))
            ⊎ ((pos 200 ≤ℤ s'.vision_confidence)
                × (s''.obstacle_state ≡ avoid)
                × (out ≡ heading_cmd s''.heading_cmd_msg ∷ [])))
  avoided_51_times es now later s m o z calm fifty = last_tick now later (run fl es s).0 (
      subst (λ k. IsAvoiding k (run fl es s).0) (omega arith)
        (run-IsAvoiding 0 es s calm (omega arith) (start-IsAvoiding s m o z)))

-- ===== src/Control/LineTacker/Walk.antt =====
-- The walk of control/line_tacking.cc along its waypoints.
use native.Mathlib.Nat.{mod-add-mod}
use boat.Prelude.{
  ℕ, zero, suc, ◌+◌, ◌-◌, ◌%◌, ◌≤◌, ◌<◌, min, ◌≡◌, refl, ap, ◌∙◌, Bool, true, false, none, some,
  List, arith, mod_cases,
}
use boat.Prelude.Int.{pos}
use boat.Prelude.Floats.{Floats}
use boat.Control.LineTacker.{LineTacker, advance, rem}
use boat.Control.LineTacker.Run.{
  Output, Event, control_mode, waypoints_msg, tick, step, iterate, goal_heading, Leg, leg_of,
  restart_at_boat, is_near, walked, is_disabled, send_goal,
}

module _ (fl : Floats) where
  -- Neither an iteration nor new waypoints.
  abbrev pub is_other : Event fl → Bool
  is_other (waypoints_msg msg) = false
  is_other tick = false
  is_other e = true

  -- A run without new waypoints in which the boat came near the next waypoint `k` times.
  pub data Walk (s : LineTacker fl) : ℕ → LineTacker fl → Type 0 where
    here : Walk s zero s
    message :
        {k : ℕ} {t u : LineTacker fl} {out : List (Output fl)} (e : Event fl)
        → Walk s k t
        → is_other e ≡ true
        → step fl e t ≡ some (u, out)
        → Walk s k u
    off :
        {k : ℕ} {t u : LineTacker fl} {out : List (Output fl)}
        → Walk s k t
        → is_disabled fl t.tack_mode ≡ true
        → iterate fl t ≡ some (u, out)
        → Walk s k u
    away :
        {k : ℕ} {t u : LineTacker fl} {out : List (Output fl)} (leg : Leg fl)
        → Walk s k t
        → is_disabled fl t.tack_mode ≡ false
        → leg_of fl (restart_at_boat fl t) ≡ some leg
        → is_near fl leg (restart_at_boat fl t) ≡ false
        → iterate fl t ≡ some (u, out)
        → Walk s k u
    arrives :
        {k : ℕ} {t u : LineTacker fl} {out : List (Output fl)} (leg : Leg fl)
        → Walk s k t
        → is_disabled fl t.tack_mode ≡ false
        → leg_of fl (restart_at_boat fl t) ≡ some leg
        → is_near fl leg (restart_at_boat fl t) ≡ true
        → iterate fl t ≡ some (u, out)
        → Walk s (suc k) u

  -- What the walk depends on.
  pub record IsAt (n : ℕ) (repeat : Bool) (i : ℕ) (t : LineTacker fl) : Type 0 where
    pub len : t.way_len ≡ pos n
    pub round : t.repeat ≡ repeat
    pub index : t.i ≡ i

  message-IsAt :
      {n i : ℕ} {r : Bool} (e : Event fl) {t u : LineTacker fl} {out : List (Output fl)}
      → is_other e ≡ true
      → step fl e t ≡ some (u, out)
      → IsAt n r i t
      → IsAt n r i u
  unfolding step
  message-IsAt (control_mode none) o h v = ground arith
  message-IsAt (control_mode (some m)) o h v = ground arith
  message-IsAt e o h v = ground arith

  off-IsAt :
      {n i : ℕ} {r : Bool} {t u : LineTacker fl} {out : List (Output fl)}
      → is_disabled fl t.tack_mode ≡ true
      → iterate fl t ≡ some (u, out)
      → IsAt n r i t
      → IsAt n r i u
  unfolding iterate
  off-IsAt o h v = ground arith

  restart-IsAt :
      {n i : ℕ} {r : Bool} {t : LineTacker fl} → IsAt n r i t → IsAt n r i (restart_at_boat fl t)
  unfolding restart_at_boat
  restart-IsAt v = ground arith

  live-IsAt :
      {n i : ℕ} {r : Bool} {t u : LineTacker fl} {out : List (Output fl)} (leg : Leg fl)
      → is_disabled fl t.tack_mode ≡ false
      → 0 < n
      → leg_of fl (restart_at_boat fl t) ≡ some leg
      → iterate fl t ≡ some (u, out)
      → IsAt n r i t
      → IsAt n r (advance fl (is_near fl leg (restart_at_boat fl t)) (restart_at_boat fl t)).0 u
  unfolding iterate goal_heading send_goal walked
  live-IsAt {t = t} leg d len l h v = let w = restart-IsAt v in ground arith

  -- The waypoint from which the leg starts after `k` arrivals: round and round, or up to the last leg.
  abbrev pub leg_after : Bool → ℕ → ℕ → ℕ
  leg_after true n k = k % n
  leg_after false n k = min k (n - 2)

  advance_near :
      (r : Bool) (n k : ℕ) (t : LineTacker fl)
      → 2 ≤ n
      → IsAt n r (leg_after r n k) t
      → (advance fl true t).0 ≡ leg_after r n (suc k)
  unfolding advance rem
  advance_near true n k t h v =
      let e : (k % n + 1) % n ≡ suc k % n = rw mod-add-mod (ap (λ a. a % n) (omega arith)) in
      ground (arith, mod_cases (k % n + 1) n (omega arith))
  advance_near false n k t h v = ground arith

  advance_away : (t : LineTacker fl) → (advance fl false t).0 ≡ t.i
  unfolding advance
  advance_away t = refl

  leg_after_zero : (r : Bool) (n : ℕ) → 2 ≤ n → 0 ≡ leg_after r n 0
  leg_after_zero true n h = omega arith
  leg_after_zero false n h = omega arith

  Walk-IsAt :
      {r : Bool} {n : ℕ} {s : LineTacker fl} {k : ℕ} {t : LineTacker fl}
      → 2 ≤ n
      → IsAt n r 0 s
      → Walk s k t
      → IsAt n r (leg_after r n k) t
  Walk-IsAt {r} {n} {s} h v here = record {
    len = v.len;
    round = v.round;
    index = v.index ∙ leg_after_zero r n h;
  }
  Walk-IsAt h v (message e w o q) = message-IsAt e o q (Walk-IsAt h v w)
  Walk-IsAt h v (off w d q) = off-IsAt d q (Walk-IsAt h v w)
  Walk-IsAt h v (away {t = t} leg w d l f q) =
      let at = Walk-IsAt h v w in
      let u = live-IsAt leg d (omega arith) l q at in
      record {
        len = u.len;
        round = u.round;
        index =
            u.index
            ∙ ap (λ b. (advance fl b (restart_at_boat fl t)).0) f
            ∙ advance_away (restart_at_boat fl t)
            ∙ (restart-IsAt at).index;
      }
  Walk-IsAt {r} {n} h v (arrives {k} {t = t} leg w d l f q) =
      let at = Walk-IsAt h v w in
      let u = live-IsAt leg d (omega arith) l q at in
      record {
        len = u.len;
        round = u.round;
        index =
            u.index
            ∙ ap (λ b. (advance fl b (restart_at_boat fl t)).0) f
            ∙ advance_near r n k (restart_at_boat fl t) h (restart-IsAt at);
      }

  -- From the first leg of two or more waypoints on, whatever messages come between, as long as none
  -- has new waypoints: after `k` arrivals the boat is on leg `k`, counted modulo the number of
  -- waypoints where they repeat, and at the last leg at most where they do not. Iterations away from
  -- the next waypoint, or with the tacker disabled, do not count.
  pub walk_lem :
      {s t : LineTacker fl} {k : ℕ} (n : ℕ)
      → 2 ≤ n
      → s.way_len ≡ pos n
      → s.i ≡ 0
      → Walk s k t
      → (t.way_len ≡ pos n) × (t.i ≡ leg_after s.repeat n k)
  walk_lem {s} n h l i w =
      let at = Walk-IsAt h (record { len = l; round = refl; index = i }) w in (at.len, at.index)

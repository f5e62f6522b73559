-- ===== src/Control/LineTacker/Bounds.antt =====
-- The accesses of control/line_tacking.cc to its arrays.
use boat.Prelude.{
  min, ℕ, zero, suc, ◌+◌, ◌-◌, ◌%◌, ◌≤◌, ◌<◌, ◌≡◌, refl, ◌∙◌, Bool, true, false, some, List, [],
  ◌∷◌, arith, if◌then◌else◌, length, get_elem?, set, length-set, Option-cases, inl, inr, lt→ltb,
  not,
}
use boat.Prelude.Int.{ℤ, pos, negsuc, ◌+ℤ◌, sub_ℕ}
use boat.Prelude.Floats.{Floats}
use boat.Control.LineTacker.{
  LineTacker, Point, WaypointList, process_waypoints, copy_points, min_ℤ, to_ℕ, advance, rem,
  bounds, waypoint_moe,
}
use boat.Control.LineTacker.Run.{Leg, leg_of, choose, is_zero}

module _ (fl : Floats) where
  -- As many waypoints as the array holds, and the leg among them.
  pub record IsInBounds (s : LineTacker fl) : Type 0 where
    pub whole : length s.waypoints ≡ 10
    pub nonneg : s.way_len ≡ pos (to_ℕ s.way_len)
    pub fits : to_ℕ s.way_len ≤ 10
    pub on_leg : s.i ≤ to_ℕ s.way_len - 1

  get_elem?_in {ℓ} :
      {A : Type ℓ} (xs : List A) (i : ℕ) → i < length xs → (a : A) × (get_elem? xs i ≡ some a)
  get_elem?_in [] i h = absurd (omega arith)
  get_elem?_in (x ∷ xs) zero h = (x, refl)
  get_elem?_in (x ∷ xs) (suc i) h = get_elem?_in xs i (omega arith)

  copy_points-total :
      (rounds k offset starti : ℕ) (points waypoints : List (Point fl))
      → k + rounds + starti ≤ length points
      → k + rounds + offset ≤ length waypoints
      → (r : List (Point fl)) × (copy_points fl rounds k offset starti points waypoints ≡ some r)
        × (length r ≡ length waypoints)
  unfolding copy_points
  copy_points-total zero k offset starti points waypoints h l = (waypoints, refl, refl)
  copy_points-total (suc rounds) k offset starti points waypoints h l =
      let (pt, e) = get_elem?_in points (k + starti) (omega arith) in
      let stored = set waypoints (k + offset) pt in
      let same = length-set waypoints (k + offset) pt in
      let inside = lt→ltb (k + offset) (length waypoints) (omega arith) in
      let (r, e', n) =
        copy_points-total rounds (k + 1) offset starti points stored (omega arith)
          (omega (arith, same)) in
      (r, rw (e, inside) e', n ∙ same)

  counted : (n o : ℕ) → o ≤ 1 → min_ℤ (sub_ℕ n 0) (sub_ℕ 10 o) +ℤ pos o ≡ pos (min n (10 - o) + o)
  unfolding min_ℤ ◌+ℤ◌
  counted n o h = ground arith

  rounds_fit : (n o : ℕ) → o ≤ 1 → to_ℕ (min_ℤ (sub_ℕ n 0) (sub_ℕ 10 o)) ≡ min n (10 - o)
  unfolding min_ℤ
  rounds_fit n o h = ground arith

  pub process_waypoints-IsInBounds :
      (msg : WaypointList fl) {s : LineTacker fl}
      → msg.restart ≡ true
      → IsInBounds s
      → (t : LineTacker fl) × (process_waypoints fl msg s ≡ some t) × IsInBounds t
  unfolding process_waypoints
  process_waypoints-IsInBounds msg {s} r v =
      let o : ℕ = if msg.defined_start then 0 else 1 in
      let small : o ≤ 1 = ground arith in
      let n = length msg.points in
      let (points, e, same) =
        copy_points-total (min n (10 - o)) 0 o 0 msg.points s.waypoints (omega arith)
          (omega (arith, v.whole, small)) in
      let t : LineTacker fl = record s {
        recalc_zero = not msg.defined_start;
        repeat = msg.repeat;
        waypoints = points;
        i = 0;
        msg_i_offset = 0;
        way_len = pos (min n (10 - o) + o);
      } in
      (
        t,
        rw (r, rounds_fit n o small, counted n o small, e) refl,
        record { whole = same ∙ v.whole; nonneg = refl; fits = omega arith; on_leg = omega arith },
      )

  nonzero : (n : ℤ) → n ≡ pos (to_ℕ n) → is_zero n ≡ false → 0 < to_ℕ n
  nonzero (pos n) e h = ground arith
  nonzero (negsuc n) e h = absurd (ground arith)

  rem-pos : (a : ℕ) (n : ℤ) → n ≡ pos (to_ℕ n) → rem a n ≡ a % to_ℕ n
  unfolding rem
  rem-pos a (pos n) e = refl
  rem-pos a (negsuc n) e = absurd (ground arith)

  leg_of-found :
      (s : LineTacker fl) {a b : Point fl} {m : fl.F}
      → get_elem? s.waypoints s.i ≡ some a
      → get_elem? s.waypoints (rem (s.i + 1) s.way_len) ≡ some b
      → get_elem? (waypoint_moe fl) (rem (s.i + 1) s.way_len) ≡ some m
      → leg_of fl s ≡ some (record { start = a; end = b; moe = m })
  unfolding leg_of
  leg_of-found s qa qb qm = rw (leg_of, qa, qb, qm)

  pub leg_of_total :
      (s : LineTacker fl)
      → IsInBounds s
      → is_zero s.way_len ≡ false
      → (leg : Leg fl) × (leg_of fl s ≡ some leg)
  leg_of_total s v h =
      let next = rem (s.i + 1) s.way_len in
      let some_len = nonzero s.way_len v.nonneg h in
      let same = rem-pos (s.i + 1) s.way_len v.nonneg in
      let (a, qa) = get_elem?_in s.waypoints s.i (omega (arith, v.whole, v.fits, v.on_leg)) in
      let (b, qb) = get_elem?_in s.waypoints next (omega (arith, v.whole, v.fits)) in
      let (m, qm) = get_elem?_in (waypoint_moe fl) next (omega (arith, v.fits)) in
      (record { start = a; end = b; moe = m }, leg_of-found s qa qb qm)

  pub advance-on_leg :
      (near : Bool) (s : LineTacker fl)
      → IsInBounds s
      → is_zero s.way_len ≡ false
      → (advance fl near s).0 ≤ to_ℕ s.way_len - 1
  unfolding advance
  advance-on_leg near s v h =
      let some_len : 0 < to_ℕ s.way_len = nonzero s.way_len v.nonneg h in
      rw v.nonneg (ground (arith, v.on_leg))

  pub choose_total :
      (leg : Leg fl) (nominal : fl.F) (s : LineTacker fl)
      → s.i < 10
      → (h : fl.F) × (choose fl leg nominal s ≡ some h)
  unfolding choose
  choose_total leg nominal s h =
      let (b, q) = get_elem?_in (bounds fl) s.i h in
      elim (Option-cases (choose fl leg nominal s)) [
        | inl e ↦ absurd (ground arith)
        | inr found ↦ found
      ]

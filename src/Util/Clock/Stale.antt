-- ===== src/Util/Clock/Stale.antt =====
-- What a shutdown leaves behind in the queue of wake-up times (util/clock.cc): a thread that returns
-- because of it does not take its wake-up out.
use boat.Prelude.{
  ℕ, ◌+◌, ◌<◌, ◌≤◌, ◌≡◌, refl, false, List, [], ◌∷◌, arith, leb, length, get_or, Bool-cases, inl,
  inr, lt→ltb, le→ltb, le→leb,
}
use boat.Util.Clock.{
  Clock, Step, sleeps, wakes, ticks, shuts_down, Reach, here, later, sleep_until, wake, run_once,
  raise_shutdown, cancel_shutdown, set_time, push, drop_past, pop_equal, top_or, started,
}
use boat.Util.Clock.Queue.{
  count, one_if_eq, IsSortedFrom, push-IsSortedFrom, count-push, le_of_count, count-remove_at,
  pop_equal-IsSortedFrom,
}

-- More wake-ups are listed for the time `len` than threads sleep until it.
pub record HasStale (len : ℕ) (c : Clock) : Type 0 where
  pub sorted : IsSortedFrom 0 c.wakeup_times
  pub before : c.time ≤ len
  pub excess : count len c.sleepers < count len c.wakeup_times

count-drop_past : (a now : ℕ) (xs : List ℕ) → now ≤ a → count a (drop_past now xs) ≡ count a xs
unfolding drop_past
count-drop_past a now [] h = refl
count-drop_past a now (x ∷ xs) h = ground (arith, count-drop_past a now xs)

IsSortedFrom-weaken : (lo hi : ℕ) (xs : List ℕ) → lo ≤ hi → IsSortedFrom hi xs → IsSortedFrom lo xs
IsSortedFrom-weaken lo hi [] h s = tt
IsSortedFrom-weaken lo hi (x ∷ xs) h s = (omega arith, s.1)

drop_past-IsSortedFrom :
    (lo now : ℕ) (xs : List ℕ) → IsSortedFrom lo xs → IsSortedFrom lo (drop_past now xs)
unfolding drop_past
drop_past-IsSortedFrom lo now [] s = tt
drop_past-IsSortedFrom lo now (x ∷ xs) s =
    ground (arith, drop_past-IsSortedFrom x now xs, IsSortedFrom-weaken lo x (drop_past now xs))

count-pop_equal_le :
    (a len : ℕ) (xs : List ℕ) → count a xs ≤ count a (pop_equal len xs) + one_if_eq len a
unfolding pop_equal
count-pop_equal_le a len [] = omega arith
count-pop_equal_le a len (x ∷ xs) = ground arith

sleep_until-HasStale :
    {len : ℕ} (t : ℕ) {c : Clock} → HasStale len c → HasStale len (sleep_until t c)
unfolding sleep_until
sleep_until-HasStale {len} t {c} s = elim (Bool-cases (leb t c.time)) [
  | inl early ↦ rw early s
  | inr late ↦
      let sorted : IsSortedFrom 0 (drop_past c.time (push t c.wakeup_times)) =
        drop_past-IsSortedFrom 0 c.time _
          (push-IsSortedFrom t 0 c.wakeup_times (omega arith) s.sorted) in
      let counted = count-drop_past len c.time (push t c.wakeup_times) s.before in
      rw (late, lt→ltb c.time t (ground arith))
        (elim (Bool-cases c.done) [
          | inl stop ↦ rw stop (record {
            sorted = sorted;
            before = s.before;
            excess = ground (arith, counted, count-push len t c.wakeup_times, s.excess);
          })
          | inr go ↦ rw go (record {
            sorted = sorted;
            before = s.before;
            excess = ground (arith, counted, count-push len t c.wakeup_times, s.excess);
          })
        ])
]

wake-HasStale :
    {len : ℕ} (i : ℕ) {c : Clock} → i < length c.sleepers → HasStale len c → HasStale len (wake i c)
unfolding wake
wake-HasStale {len} i {c} h s = elim (Bool-cases c.done) [
  | inl stop ↦ rw stop (record {
    sorted = s.sorted;
    before = s.before;
    excess = omega (arith, count-remove_at len i c.sleepers, s.excess);
  })
  | inr go ↦ rw go (elim (Bool-cases (leb (get_or c.sleepers i 0) c.time)) [
    | inl due ↦ rw due (record {
      sorted = pop_equal-IsSortedFrom 0 _ c.wakeup_times s.sorted;
      before = s.before;
      excess = omega (
        arith,
        count-remove_at len i c.sleepers,
        s.excess,
        count-pop_equal_le len (get_or c.sleepers i 0) c.wakeup_times,
      );
    })
    | inr early ↦ rw early (record { sorted = s.sorted; before = s.before; excess = s.excess })
  ])
]

top_or-le : (len t : ℕ) (ts : List ℕ) → IsSortedFrom 0 ts → 0 < count len ts → top_or t ts ≤ len
top_or-le len t [] s h = absurd (omega arith)
top_or-le len t (x ∷ xs) s h = le_of_count len x (x ∷ xs) (omega arith, s.1) h

run_once-HasStale : {len : ℕ} {c : Clock} → HasStale len c → HasStale len (run_once c)
unfolding run_once
run_once-HasStale {len} {c} s = elim (Bool-cases (leb c.time (top_or c.time c.wakeup_times))) [
  | inl ahead ↦ rw ahead (record {
    sorted = s.sorted;
    before = top_or-le len c.time c.wakeup_times s.sorted (omega (arith, s.excess));
    excess = s.excess;
  })
  | inr past ↦ rw past s
]

Step-HasStale : {len : ℕ} {c c' : Clock} → Step c c' → HasStale len c → HasStale len c'
unfolding raise_shutdown
Step-HasStale (sleeps c t) s = sleep_until-HasStale t s
Step-HasStale (wakes c i h) s = wake-HasStale i h s
Step-HasStale (ticks c) s = run_once-HasStale s
Step-HasStale (shuts_down c) s = record { sorted = s.sorted; before = s.before; excess = s.excess }

Reach-HasStale : {len : ℕ} {c c' : Clock} → HasStale len c → Reach c c' → HasStale len c'
Reach-HasStale s here = s
Reach-HasStale s (later r st) = Step-HasStale st (Reach-HasStale s r)

-- The only thread sleeps until `len`, there is a shutdown, for which it returns, the clock manager
-- goes once more, and then the next test takes the shutdown back and sets the clock.
abbrev pub restarted : ℕ → ℕ → ℕ → Clock
restarted start len start' =
    set_time start'
      (cancel_shutdown (run_once (wake 0 (raise_shutdown (sleep_until len (started start))))))

restarted-eq :
    (start len start' : ℕ)
    → start < len
    → restarted start len start'
      ≡ record { time = start'; wakeup_times = len ∷ []; done = false; sleepers = [] }
unfolding raise_shutdown push drop_past sleep_until wake run_once cancel_shutdown set_time
restarted-eq start len start' h =
    rw (lt→ltb start len h, leb_false start len h, le→ltb len start (omega arith))
      (rw (le→leb start len (omega arith)) refl)
  where
    leb_false : (a b : ℕ) → a < b → leb b a ≡ false
    leb_false a b k = ground arith

-- A shutdown leaves the wake-up of a thread behind that slept until `len`. When the shutdown is
-- taken back and the fake clock set to `len` at the latest, its time never goes past `len` again,
-- whoever sleeps, is woken, lets it tick or shuts down, and while there is no other shutdown a thread that sleeps
-- until a later time sleeps on when it is woken.
pub shutdown_stops_clock :
    (start len start' : ℕ) {c : Clock}
    → start < len
    → start' ≤ len
    → Reach (restarted start len start') c
    → (c.time ≤ len) × ((i : ℕ) → c.done ≡ false → len < get_or c.sleepers i 0 → wake i c ≡ c)
unfolding wake
shutdown_stops_clock start len start' h k r =
    let stale : HasStale len (restarted start len start') =
      rw (restarted-eq start len start' h)
        (record { sorted = (omega arith, tt); before = k; excess = ground arith }) in
    let s = Reach-HasStale stale r in (s.before, λ i go far. ground (arith, s.before))

-- ===== src/Util/Clock/Punctual.antt =====
-- The promise of the fake clock (util/clock.h): time does not pass a thread that sleeps, and goes on
-- to the first of them.
use boat.Prelude.{
  Bool-cases, inl, inr, lt→ltb, ℕ, suc, ◌+◌, ◌≤◌, ◌<◌, ◌≡◌, true, false, List, [], ◌∷◌, arith, leb,
  ◌==◌, length, get_or,
}
use boat.Util.Clock.{
  Clock, started, Step, sleeps, wakes, ticks, shuts_down, Reach, here, later, sleep_until, wake,
  run_once, raise_shutdown, push, pop_equal, remove_at, top_or,
}
use boat.Util.Clock.Queue.{
  count, one_if_eq, IsSortedFrom, push-IsSortedFrom, count-push, drop_past_none, le_of_count,
  IsSortedFrom-mono, count-pop_equal, pop_equal-IsSortedFrom, count-remove_at,
}

-- Every sleeper has its wake-up in the queue, and before a shutdown nothing else is there.
pub record IsPunctual (c : Clock) : Type 0 where
  pub sorted : IsSortedFrom c.time c.wakeup_times
  pub listed : (a : ℕ) → count a c.sleepers ≤ count a c.wakeup_times
  pub exact : c.done ≡ false → (a : ℕ) → count a c.wakeup_times ≤ count a c.sleepers

started-IsPunctual : (t : ℕ) → IsPunctual (started t)
started-IsPunctual t = record { sorted = tt; listed = λ a. omega arith; exact = λ h a. omega arith }

push_sorted :
    (len : ℕ) (c : Clock)
    → IsPunctual c
    → leb len c.time ≡ false
    → IsSortedFrom c.time (push len c.wakeup_times)
push_sorted len c v h = push-IsSortedFrom len c.time c.wakeup_times (ground arith) v.sorted

sleep_until-IsPunctual : (len : ℕ) {c : Clock} → IsPunctual c → IsPunctual (sleep_until len c)
unfolding sleep_until
sleep_until-IsPunctual len {c} v = elim (Bool-cases (leb len c.time)) [
  | inl early ↦ rw early v
  | inr ahead ↦
      let grown = push_sorted len c v ahead in
      rw (ahead, lt→ltb c.time len (ground arith), drop_past_none _ _ grown)
        (elim (Bool-cases c.done) [
          | inl stop ↦ rw stop (record {
            sorted = grown;
            listed = λ a. ground (arith, count-push a len c.wakeup_times, v.listed a);
            exact = λ h a. cc;
          })
          | inr go ↦ rw go (record {
            sorted = grown;
            listed = λ a. ground (arith, count-push a len c.wakeup_times, v.listed a);
            exact = λ h a. ground (arith, count-push a len c.wakeup_times, v.exact go a);
          })
        ])
]

-- What a sleeper waits for is listed.
listed_sleeper :
    (i : ℕ) {c : Clock}
    → i < length c.sleepers
    → IsPunctual c
    → 0 < count (get_or c.sleepers i 0) c.wakeup_times
listed_sleeper i {c} h v =
    ground (
      arith,
      count-remove_at (get_or c.sleepers i 0) i c.sleepers,
      v.listed (get_or c.sleepers i 0),
    )

popped :
    (i : ℕ) {c : Clock}
    → i < length c.sleepers
    → IsPunctual c
    → leb (get_or c.sleepers i 0) c.time ≡ true
    → (a : ℕ)
    → count a (pop_equal (get_or c.sleepers i 0) c.wakeup_times)
        + one_if_eq (get_or c.sleepers i 0) a
      ≡ count a c.wakeup_times
popped i {c} h v due a =
    let listed = listed_sleeper i h v in
    let now : get_or c.sleepers i 0 ≡ c.time =
      ground (arith, le_of_count (get_or c.sleepers i 0) c.time c.wakeup_times v.sorted listed) in
    count-pop_equal a _ c.wakeup_times (rw now v.sorted) listed

wake-IsPunctual : (i : ℕ) {c : Clock} → i < length c.sleepers → IsPunctual c → IsPunctual (wake i c)
unfolding wake
wake-IsPunctual i {c} h v = elim (Bool-cases c.done) [
  | inl stop ↦ rw stop (record {
    sorted = v.sorted;
    listed = λ a. omega (arith, count-remove_at a i c.sleepers, v.listed a);
    exact = λ e a. cc;
  })
  | inr go ↦ rw go (elim (Bool-cases (leb (get_or c.sleepers i 0) c.time)) [
    | inl due ↦ rw due (record {
      sorted = pop_equal-IsSortedFrom c.time _ c.wakeup_times v.sorted;
      listed = λ a. omega (arith, count-remove_at a i c.sleepers, popped i h v due a, v.listed a);
      exact =
          λ e a. omega (arith, count-remove_at a i c.sleepers, popped i h v due a, v.exact go a);
    })
    | inr early ↦
        rw early (record { sorted = v.sorted; listed = v.listed; exact = λ e. v.exact go })
  ])
]

top_or_self : (ts : List ℕ) (t : ℕ) → top_or t ts ≤ top_or (top_or t ts) ts
top_or_self [] t = omega arith
top_or_self (u ∷ us) t = omega arith

run_once-IsPunctual : {c : Clock} → IsPunctual c → IsPunctual (run_once c)
unfolding run_once
run_once-IsPunctual {c} v = elim (Bool-cases (leb c.time (top_or c.time c.wakeup_times))) [
  | inl ahead ↦ rw ahead (record {
    sorted = IsSortedFrom-mono c.time _ c.wakeup_times (top_or_self c.wakeup_times c.time) v.sorted;
    listed = v.listed;
    exact = v.exact;
  })
  | inr past ↦ rw past v
]

Step-IsPunctual : {c c' : Clock} → Step c c' → IsPunctual c → IsPunctual c'
unfolding raise_shutdown
Step-IsPunctual (sleeps c len) v = sleep_until-IsPunctual len v
Step-IsPunctual (wakes c i h) v = wake-IsPunctual i h v
Step-IsPunctual (ticks c) v = run_once-IsPunctual v
Step-IsPunctual (shuts_down c) v = record {
  sorted = v.sorted;
  listed = v.listed;
  exact = λ h a. cc;
}

pub Reach-IsPunctual : {t : ℕ} {c : Clock} → Reach (started t) c → IsPunctual c
Reach-IsPunctual {t} here = started-IsPunctual t
Reach-IsPunctual (later r s) = Step-IsPunctual s (Reach-IsPunctual r)

-- A sleeper is never passed over.
never_late :
    {t : ℕ} {c : Clock}
    → Reach (started t) c
    → (i : ℕ) → i < length c.sleepers
    → c.time ≤ get_or c.sleepers i 0
never_late r i h = let v = Reach-IsPunctual r in le_of_count _ _ _ v.sorted (listed_sleeper i h v)

Step-time : {c c' : Clock} → Step c c' → c.time ≤ c'.time
unfolding sleep_until wake run_once raise_shutdown
Step-time (sleeps c len) = ground arith
Step-time (wakes c i h) = ground arith
Step-time (ticks c) = ground arith
Step-time (shuts_down c) = omega arith

-- Whatever the order in which threads go to sleep, are woken and the clock ticks, shutdown
-- included: no step turns the time back, and after it no sleeping thread waits for a time that is
-- over.
pub time_waits_for_sleepers :
    {t : ℕ} {c c' : Clock}
    → Reach (started t) c
    → Step c c'
    → (c.time ≤ c'.time) × ((i : ℕ) → i < length c'.sleepers → c'.time ≤ get_or c'.sleepers i 0)
time_waits_for_sleepers r s = (Step-time s, never_late (later r s))

index_of : (a : ℕ) (xs : List ℕ) → 0 < count a xs → (i : ℕ) × (i < length xs) × (get_or xs i 0 ≡ a)
index_of a [] h = absurd (omega arith)
index_of a (x ∷ xs) h = elim (Bool-cases (x == a)) [
  | inl e ↦ (0, omega arith, ground arith)
  | inr e ↦ let (i, b, q) = index_of a xs (ground arith) in (suc i, omega arith, q)
]

wakeup_exists :
    (c : Clock) (i : ℕ)
    → i < length c.sleepers
    → IsPunctual c
    → 0 < count (top_or c.time c.wakeup_times) c.wakeup_times
wakeup_exists c i h v = ground (arith, listed_sleeper i h v, counted c.wakeup_times)
  where
    counted : (ts : List ℕ) → 0 < count (get_or c.sleepers i 0) ts → 0 < count (top_or c.time ts) ts
    counted [] k = absurd (omega arith)
    counted (x ∷ xs) k = ground arith

tick-le :
    {t : ℕ} {c : Clock}
    → Reach (started t) c
    → (k : ℕ) → k < length c.sleepers
    → (run_once c).time ≤ get_or c.sleepers k 0
unfolding run_once
tick-le {c} r k h = ground (arith, never_late (later r (ticks c)) k)

-- Unless there is a shutdown, the next round of the clock manager goes on to a time at which a
-- sleeping thread is due, so that it returns when it is woken, and which is not past the time of any.
pub tick_reaches_first :
    {t : ℕ} {c : Clock}
    → Reach (started t) c
    → c.done ≡ false
    → (i : ℕ) → i < length c.sleepers
    → ((j : ℕ) × (j < length c.sleepers)
        × (get_or c.sleepers j 0 ≡ (run_once c).time)
        × ((wake j (run_once c)).sleepers ≡ remove_at j c.sleepers))
      × ((run_once c).time ≤ get_or c.sleepers i 0)
unfolding run_once wake
tick_reaches_first {c} r go i h =
    let v = Reach-IsPunctual r in
    let top = top_or c.time c.wakeup_times in
    let found = wakeup_exists c i h v in
    let ahead = le_of_count top c.time c.wakeup_times v.sorted found in
    let (j, b, e) = index_of top c.sleepers (omega (arith, v.exact go top)) in
    ((j, b, ground arith, ground arith), tick-le r i h)

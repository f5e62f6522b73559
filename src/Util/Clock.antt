-- ===== src/Util/Clock.antt =====
-- The fake clock of util/clock.h and util/clock.cc: the statics of `monotonic_clock`, the threads
-- that sleep, and what each call does while it holds the lock. Times are nanoseconds.
pub mod Queue
pub mod Punctual
pub mod Stale
pub mod Loop
mod Tests
use boat.Prelude.{
  ℕ, zero, suc, ◌<◌, Bool, true, false, List, [], ◌∷◌, ltb, leb, ◌==◌, if◌then◌else◌, length,
  get_or,
}

-- A thread inside of `tick_.wait` is listed by the time that it sleeps until.
pub record Clock : Type 0 where
  pub time : ℕ
  pub wakeup_times : List ℕ
  pub done : Bool
  pub sleepers : List ℕ

-- The clock that `ClockManager::Run` starts, before any thread sleeps.
abbrev pub started : ℕ → Clock
started start_time = record { time = start_time; wakeup_times = []; done = false; sleepers = [] }

-- The priority queue, its least element first.
pub push : ℕ → List ℕ → List ℕ
push t [] = t ∷ []
push t (u ∷ us) = if leb t u then t ∷ u ∷ us else u ∷ push t us

pub drop_past : ℕ → List ℕ → List ℕ
drop_past now [] = []
drop_past now (t ∷ ts) = if ltb t now then drop_past now ts else t ∷ ts

pub set_time : ℕ → Clock → Clock
set_time t c = record c { time = t }

pub set_wakeup : ℕ → Clock → Clock
set_wakeup t c =
    let pushed = if ltb c.time t then push t c.wakeup_times else c.wakeup_times in
    record c { wakeup_times = drop_past c.time pushed }

abbrev pub top_or : ℕ → List ℕ → ℕ
top_or t [] = t
top_or t (u ∷ us) = u

pub next_wakeup : Clock → ℕ
next_wakeup c = top_or c.time c.wakeup_times

pub pop_equal : ℕ → List ℕ → List ℕ
pop_equal len [] = []
pop_equal len (t ∷ ts) = if t == len then ts else t ∷ ts

-- The predicate of the wait: whether the thread returns, and the clock after the test.
pub is_due : ℕ → Clock → Bool × Clock
is_due len c =
    if c.done
    then (true, c)
    else if leb len c.time
    then (true, record c { wakeup_times = pop_equal len c.wakeup_times })
    else (false, c)

-- `sleep_until` up to the wait, whose predicate is tested once at its start.
pub sleep_until : ℕ → Clock → Clock
unfolding is_due set_wakeup
sleep_until len c =
    if leb len c.time
    then c
    else let (returns, c') = is_due len (set_wakeup len c) in
      if returns then c' else record c' { sleepers = len ∷ c'.sleepers }

abbrev pub remove_at : ℕ → List ℕ → List ℕ
remove_at i [] = []
remove_at zero (x ∷ xs) = xs
remove_at (suc i) (x ∷ xs) = x ∷ remove_at i xs

-- A sleeper gets the lock, for a notification or for no reason, and tests the predicate again.
pub wake : ℕ → Clock → Clock
unfolding is_due
wake i c =
    let (returns, c') = is_due (get_or c.sleepers i 0) c in
    if returns then record c' { sleepers = remove_at i c'.sleepers } else c'

-- A round of `ClockManager::Run`, which holds the lock alone: every other thread sleeps.
pub run_once : Clock → Clock
unfolding next_wakeup set_time
run_once c = if leb c.time (next_wakeup c) then set_time (next_wakeup c) c else c

pub raise_shutdown : Clock → Clock
raise_shutdown c = record c { done = true }

pub cancel_shutdown : Clock → Clock
cancel_shutdown c = record c { done = false }

-- Who comes next is up to the scheduler.
pub data Step : Clock → Clock → Type 0 where
  sleeps : (c : Clock) (len : ℕ) → Step c (sleep_until len c)
  wakes : (c : Clock) (i : ℕ) → i < length c.sleepers → Step c (wake i c)
  ticks : (c : Clock) → Step c (run_once c)
  shuts_down : (c : Clock) → Step c (raise_shutdown c)

pub data Reach (s : Clock) : Clock → Type 0 where
  here : Reach s s
  later : {t u : Clock} → Reach s t → Step t u → Reach s u

-- ===== src/Util/Clock/Tests.antt =====
-- Instances for the fake clock (util/clock.cc).
use boat.Prelude.{ℕ, ◌+◌, ◌-◌, ◌≤◌, ◌≡◌, refl, some, [], ◌∷◌, arith, get_or, false, ◌<◌, length}
use boat.Util.Clock.{
  Clock, started, Reach, here, later, sleeps, ticks, sleep_until, run_once, wake, push, drop_past,
  raise_shutdown, cancel_shutdown, set_time,
}
use boat.Util.Clock.Punctual.{time_waits_for_sleepers}
use boat.Util.Clock.Stale.{shutdown_stops_clock, restarted}
use boat.Util.Clock.Loop.{wait_for_next, wait_for_next_returns, IsNext}

-- Two threads sleep until 70 and 40.
abbrev two_asleep : Clock
two_asleep = sleep_until 40 (sleep_until 70 (started 10))

two_asleep-Reach : Reach (started 10) two_asleep
two_asleep-Reach = later (later here (sleeps (started 10) 70)) (sleeps _ 40)

two_asleep-sleepers : two_asleep.sleepers ≡ 40 ∷ 70 ∷ []
unfolding sleep_until push drop_past
two_asleep-sleepers = refl

time_waits_for_sleepers_example :
    (two_asleep.time ≤ (run_once two_asleep).time)
    × ((i : ℕ)
        → i < length (run_once two_asleep).sleepers
        → (run_once two_asleep).time ≤ get_or (run_once two_asleep).sleepers i 0)
unfolding sleep_until push drop_past run_once
time_waits_for_sleepers_example = time_waits_for_sleepers two_asleep-Reach (ticks two_asleep)

-- The next test sleeps until 90, but the clock stops at 70.
abbrev next_test : Clock
next_test = sleep_until 90 (restarted 10 70 0)

shutdown_stops_clock_example :
    (next_test.time ≤ 70)
    × ((i : ℕ)
        → next_test.done ≡ false
        → 70 < get_or next_test.sleepers i 0
        → wake i next_test ≡ next_test)
unfolding sleep_until push drop_past wake run_once raise_shutdown cancel_shutdown set_time
shutdown_stops_clock_example =
    shutdown_stops_clock 10 70 0 (omega arith) (omega arith)
      (later here (sleeps (restarted 10 70 0) 90))

-- The last trigger was at 20, and the clock shows 95.
wait_for_next_returns_example :
    (k : ℕ) × IsNext (wait_for_next (95 - 20 + 1) 10 (λ n. 95) 0 20) 10 (λ n. 95) 0 20 k
wait_for_next_returns_example =
    wait_for_next_returns 10 95 (λ n. 95) 20 (omega arith) (λ m. omega arith)

next_trigger : wait_for_next 76 10 (λ n. 95) 0 20 ≡ some 100
unfolding wait_for_next
next_trigger = refl

-- ===== src/Timer/Tests.antt =====
-- The theorems on kernel/timer.c at concrete counters.
use feudos.Prelude.{ℕ, ◌+◌, ◌≡◌, List, [], ◌∷◌, ◌++◌, arith}
use feudos.Timer.{woken, ticked, timer_uptime_ms, sleep_ticks}
use feudos.Timer.Clock.{timer_uptime_ms-ticked}
use feudos.Timer.Sleep.{sum, Reached, sleep_ticks-Reached}

timer_uptime_ms-ticked_example : timer_uptime_ms (ticked 123 0) ≡ 1230
timer_uptime_ms-ticked_example = timer_uptime_ms-ticked 123 (omega arith)

-- A keyboard interrupt, a tick, two ticks in a round, and an interrupt that the sleep leaves.
abbrev wakes : List ℕ
wakes = 0 ∷ 1 ∷ 2 ∷ 1 ∷ []

sleep_ticks-Reached_example :
    (done rest : List ℕ) × (done ++ rest ≡ wakes)
    × (sleep_ticks 2 wakes 40 ≡ woken (40 + sum done) rest)
    × Reached 42 40 done
sleep_ticks-Reached_example = sleep_ticks-Reached 2 40 wakes (omega arith) (omega arith)

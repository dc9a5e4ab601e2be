-- ===== src/Timer/Clock.antt =====
-- kernel/timer.c: the time since the start.
use feudos.Prelude.{ℕ, zero, suc, ◌+◌, ◌*◌, ◌%◌, ◌^◌, ◌<◌, ◌≡◌, arith}
use feudos.Timer.{timer_tick, timer_uptime_ms, ticked}

-- The counter is the number of the interrupts, on 64 bits.
pub ticked-add : (n ticks : ℕ) → ticks < 2 ^ 64 → ticked n ticks ≡ (ticks + n) % 2 ^ 64
unfolding ticked timer_tick
ticked-add zero ticks h = omega arith
ticked-add (suc n) ticks h = omega (arith, ticked-add n ((ticks + 1) % 2 ^ 64) (omega arith))

-- After n timer interrupts, `timer_uptime_ms` is ten times n, as long as `ticks * 1000` fits 64
-- bits.
pub timer_uptime_ms-ticked : (n : ℕ) → n * 1000 < 2 ^ 64 → timer_uptime_ms (ticked n 0) ≡ 10 * n
unfolding timer_uptime_ms
timer_uptime_ms-ticked n h = rw (ticked-add n 0 (omega arith)) (omega arith)

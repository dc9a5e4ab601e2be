-- ===== src/Timer.antt =====
-- kernel/timer.c and include/kernel/timer.h: the tick counter, and the sleep over interrupts.
-- The proofs are in the modules below.
pub mod Clock
pub mod Sleep
mod Tests
use feudos.Prelude.{ℕ, zero, suc, ◌+◌, ◌*◌, ◌/◌, ◌%◌, ◌^◌, Bool, List, [], ◌∷◌, ltb, if◌then◌else◌}

abbrev pub timer_freq : ℕ
timer_freq = 100

-- `ticks++` on 64 bits.
unfoldable pub timer_tick : ℕ → ℕ
timer_tick ticks = (ticks + 1) % 2 ^ 64

unfoldable pub timer_get_ticks : ℕ → ℕ
timer_get_ticks ticks = ticks

unfoldable pub timer_uptime_ms : ℕ → ℕ
timer_uptime_ms ticks = ticks * 1000 % 2 ^ 64 / timer_freq

-- Timer interrupts, one after the other.
unfoldable pub ticked : ℕ → ℕ → ℕ
ticked zero ticks = ticks
ticked (suc n) ticks = ticked n (timer_tick ticks)

-- `sleep_ticks` on the interrupts that come: it waits on, or is done and has left some of them.
pub data Slept : Type 0 where
  asleep : ℕ → Slept
  woken : ℕ → List ℕ → Slept

-- Each round is one `hlt`, which ends with as many timer interrupts as the list says, none where
-- another interrupt ended it.
unfoldable pub sleep_loop : ℕ → List ℕ → ℕ → Slept
sleep_loop target [] ticks = if ltb ticks target then asleep ticks else woken ticks []
sleep_loop target (k ∷ wakes) ticks =
    let slept = sleep_loop target wakes (ticked k ticks) in
    if ltb ticks target then slept else woken ticks (k ∷ wakes)

unfoldable pub sleep_ticks : ℕ → List ℕ → ℕ → Slept
sleep_ticks n wakes ticks = sleep_loop ((ticks + n) % 2 ^ 64) wakes ticks

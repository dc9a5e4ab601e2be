-- ===== src/Live.antt =====
-- The functions that wait for interrupts, on the interrupts themselves: `kbd_readline` of
-- kernel/keyboard.c, `sleep_ticks` of kernel/timer.c and the loop of `ksh_run` of
-- kernel/ksh/ksh.c. The proofs are in the modules below.
pub mod Delivery
pub mod Lines
pub mod Sleeping
pub mod Exceptions
pub mod Rounds
pub mod Turns
pub mod Session
pub mod Booted
mod Tests
use feudos.Prelude.{
  ℕ, ◌+◌, ◌-◌, ◌%◌, ◌^◌, Option, some, List, [], ◌∷◌, ltb, if◌then◌else◌, ◌>>=◌, store,
}
use feudos.Str.{c_string}
use feudos.Io.{Device}
use feudos.Printf.{kprintf}
use feudos.Keyboard.{line_ready, copy_line}
use feudos.Idt.{IdtCtx, Kernel, After, resumed, halted, interrupt_dispatch}
use feudos.Ksh.{Cpuid, Ended, line_size, ksh_exec}

-- An interrupt as the processor delivers it, with its register cr2.
pub record Interrupt : Type 0 where
  pub cr2 : ℕ
  pub ctx : IdtCtx

abbrev pub go_on : (Kernel → Option After) → After → Option After
go_on next (resumed k) = next k
go_on next (halted k) = some (halted k)

-- The interrupts that end one `hlt`, in the order of their arrival.
unfoldable pub deliver : Device → List Interrupt → Kernel → Option After
deliver dev [] k = some (resumed k)
deliver dev (i ∷ is) k = interrupt_dispatch dev i.cr2 i.ctx k >>= go_on (deliver dev is)

-- `kbd_readline` waits on, has a line, or an exception has halted the machine.
pub data Reading : Type 0 where
  waiting : Kernel → Reading
  line : List ℕ → ℕ → Kernel → Reading
  stopped : Kernel → Reading

-- The test behind the `hlt`, and the copy of the line where it passes.
unfoldable pub tested : ℕ → List ℕ → ℕ → (Kernel → Option Reading) → After → Option Reading
tested start_pos dst max next (resumed k) = do
  ready ← line_ready start_pos k.keyboard.kbd_buf
  if ready
      then (do (bytes, n) ← copy_line start_pos dst max k.keyboard.kbd_buf; some (line bytes n k))
      else next k
tested start_pos dst max next (halted k) = some (stopped k)

-- Each round is one `hlt`.
unfoldable pub readline_loop :
    Device → ℕ → List ℕ → ℕ → List (List Interrupt) → Kernel → Option Reading
readline_loop dev start_pos dst max [] k = some (waiting k)
readline_loop dev start_pos dst max (is ∷ wakes) k =
    deliver dev is k >>= tested start_pos dst max (readline_loop dev start_pos dst max wakes)

unfoldable pub kbd_readline : Device → List ℕ → ℕ → List (List Interrupt) → Kernel → Option Reading
kbd_readline dev dst max wakes k = readline_loop dev k.keyboard.kbd_buf.pos dst max wakes k

-- `sleep_ticks` sleeps on, is done and has left some of the interrupts, or an exception has halted
-- the machine.
pub data Slept : Type 0 where
  asleep : Kernel → Slept
  woken : Kernel → List (List Interrupt) → Slept
  stopped : Kernel → Slept

abbrev pub slept_on : (Kernel → Option Slept) → After → Option Slept
slept_on next (resumed k) = next k
slept_on next (halted k) = some (stopped k)

unfoldable pub sleep_loop : Device → ℕ → List (List Interrupt) → Kernel → Option Slept
sleep_loop dev target [] k = some (if ltb k.ticks target then asleep k else woken k [])
sleep_loop dev target (is ∷ wakes) k =
    let slept = deliver dev is k >>= slept_on (sleep_loop dev target wakes) in
    if ltb k.ticks target then slept else some (woken k (is ∷ wakes))

unfoldable pub sleep_ticks : Device → ℕ → List (List Interrupt) → Kernel → Option Slept
sleep_ticks dev n wakes k = sleep_loop dev ((k.ticks + n) % 2 ^ 64) wakes k

-- A round of the loop of `ksh_run` waits for the line, has run it, or an exception has halted the
-- machine. Of a run it keeps `line`, the state when the line was there, and how the command ended.
pub data Round : Type 0 where
  reading : Kernel → Round
  ran : List ℕ → Kernel → Ended → Round
  stopped : Kernel → Round

-- `len - 1` wraps. The commands see the counter as the interrupts left it.
unfoldable pub ksh_line : Cpuid → Reading → Option Round
ksh_line id (waiting k) = some (reading k)
ksh_line id (line bytes len k) = do
  cut ← store bytes ((len + 2 ^ 64 - 1) % 2 ^ 64) 0
  e ← ksh_exec id k.ticks cut k.screen
  some (ran cut k e)
ksh_line id (stopped k) = some (stopped k)

unfoldable pub ksh_round : Device → Cpuid → List ℕ → List (List Interrupt) → Kernel → Option Round
ksh_round dev id buffer wakes k = do
  t ← kprintf (c_string "ksh> ") [] k.screen
  r ← kbd_readline dev buffer line_size wakes (record k { screen = t })
  ksh_line id r

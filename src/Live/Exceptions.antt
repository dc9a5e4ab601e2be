-- ===== src/Live/Exceptions.antt =====
-- `sleep_ticks` on any interrupts, the exceptions among them.
use feudos.Prelude.{
  ℕ, ◌+◌, ◌%◌, ◌^◌, ◌<◌, ◌≤◌, refl, Bool-cases, inl, inr, List, [], ◌∷◌, ltb, ltb→lt, arith, Yields,
  Option, Yields-bind,
}
use feudos.Io.{Device}
use feudos.Idt.{Kernel, After, resumed, halted}
use feudos.Idt.Irq.{Sound}
use feudos.Idt.Dispatch.{Leaves, interrupt_dispatch-Sound}
use feudos.Live.{
  Interrupt, Slept, asleep, woken, stopped, deliver, go_on, slept_on, sleep_loop, sleep_ticks,
}

-- What goes on only where the machine has not halted.
go_on-Leaves :
    (next : Kernel → Option After)
    → ((k : Kernel) → Sound k → Yields (Leaves Sound) (next k))
    → (a : After) → Leaves Sound a
    → Yields (Leaves Sound) (go_on next a)
go_on-Leaves next h (resumed k) v = h k v
go_on-Leaves next h (halted k) v = (_, refl, v)

-- The interrupts of a `hlt` do not fault.
deliver-Leaves :
    (dev : Device) (is : List Interrupt) (k : Kernel)
    → Sound k
    → Yields (Leaves Sound) (deliver dev is k)
unfolding deliver
deliver-Leaves dev [] k v = (_, refl, v)
deliver-Leaves dev (i ∷ is) k v =
    Yields-bind _ _ (interrupt_dispatch-Sound dev i.cr2 i.ctx k v)
      (go_on-Leaves (deliver dev is) (λ k' v'. deliver-Leaves dev is k' v'))

-- The end of a sleep until the counter is at `target`.
abbrev pub Rests : ℕ → Slept → Type 0
Rests target (asleep k) = Sound k × (k.ticks < target)
Rests target (woken k rest) = Sound k × (target ≤ k.ticks)
Rests target (stopped k) = Sound k

slept_on-Rests :
    (target : ℕ) (next : Kernel → Option Slept)
    → ((k : Kernel) → Sound k → Yields (Rests target) (next k))
    → (a : After) → Leaves Sound a
    → Yields (Rests target) (slept_on next a)
slept_on-Rests target next h (resumed k) v = h k v
slept_on-Rests target next h (halted k) v = (_, refl, v)

sleep_loop-Rests :
    (dev : Device) (target : ℕ) (wakes : List (List Interrupt)) (k : Kernel)
    → Sound k
    → Yields (Rests target) (sleep_loop dev target wakes k)
unfolding sleep_loop
sleep_loop-Rests dev target [] k v = elim (Bool-cases (ltb k.ticks target)) [
  | inl lt ↦ rw lt (_, refl, (v, ltb→lt _ _ lt))
  | inr ge ↦ rw ge (_, refl, (v, ground arith))
]
sleep_loop-Rests dev target (is ∷ wakes) k v = elim (Bool-cases (ltb k.ticks target)) [
  | inl lt ↦ rw lt (
      Yields-bind _ _ (deliver-Leaves dev is k v) (
        slept_on-Rests target (sleep_loop dev target wakes)
          (λ k' v'. sleep_loop-Rests dev target wakes k' v')))
  | inr ge ↦ rw ge (_, refl, (v, ground arith))
]

-- On a sound kernel and any interrupts and exceptions, `sleep_ticks` does not fault. It sleeps on with
-- the counter below the target, or wakes with the counter at the target or above, or an exception has
-- halted the machine, and the kernel is sound in each case.
pub sleep_ticks-Rests :
    (dev : Device) (n : ℕ) (wakes : List (List Interrupt)) (k : Kernel)
    → Sound k
    → Yields (Rests ((k.ticks + n) % 2 ^ 64)) (sleep_ticks dev n wakes k)
unfolding sleep_ticks
sleep_ticks-Rests dev n wakes k v = sleep_loop-Rests dev ((k.ticks + n) % 2 ^ 64) wakes k v

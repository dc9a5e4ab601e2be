-- ===== src/Live/Sleeping.antt =====
-- `sleep_ticks` on interrupts sleeps as it does on the ticks that they count.
use feudos.Prelude.{
  ℕ, ◌+◌, ◌%◌, ◌^◌, ◌≡◌, refl, Bool-cases, inl, inr, List, [], ◌∷◌, ltb, Yields, Yields-bind,
}
use feudos.Io.{Device}
use feudos.Timer
use feudos.Timer.{ticked}
use feudos.Keyboard.Keys.{handle_all-keyed}
use feudos.Idt.{Kernel, resumed}
use feudos.Idt.Irq.{Sound}
use feudos.Live.{Interrupt, Slept, asleep, woken, deliver, sleep_loop, sleep_ticks}
use feudos.Live.Delivery.{scancodes, ticks_in, deliver-handle_all, scancodes-Bytes}
use feudos.Live.Lines.{AllWakes}

-- The ticks of each `hlt`.
abbrev pub wake_ticks : List (List Interrupt) → List ℕ
wake_ticks [] = []
wake_ticks (is ∷ wakes) = ticks_in is ∷ wake_ticks wakes

-- The end of a sleep, with a kernel that is sound.
abbrev pub Sleeps : Slept → Timer.Slept → Type 0
Sleeps (asleep k) (Timer.asleep ticks) = (k.ticks ≡ ticks) × Sound k
Sleeps (woken k rest) (Timer.woken ticks left) =
    (k.ticks ≡ ticks) × (wake_ticks rest ≡ left) × Sound k
Sleeps _ _ = ⊥

-- On a sound kernel the interrupts of the lines do not fault.
deliver-Sound :
    (dev : Device) (is : List Interrupt) (k : Kernel)
    → Sound k
    → AllWakes (is ∷ [])
    → Yields
        (λ a.
          (k' : Kernel) × (a ≡ resumed k') × (k'.ticks ≡ ticked (ticks_in is) k.ticks) × Sound k')
        (deliver dev is k)
deliver-Sound dev is k v (lines, _) = rw (deliver-handle_all dev is k lines) (
    Yields-bind _ _
      (handle_all-keyed (scancodes dev is k.ports) k.keyboard k.screen
        (scancodes-Bytes dev is k.ports) v.buffer_valid v.screen_valid)
      λ p (e, _). (
        _,
        refl,
        (_, refl, refl, record { screen_valid = e.screen.valid; buffer_valid = e.valid }),
      ))

sleep_loop-Sleeps :
    (dev : Device) (target : ℕ) (wakes : List (List Interrupt)) (k : Kernel)
    → Sound k
    → AllWakes wakes
    → Yields
        (λ r. Sleeps r (Timer.sleep_loop target (wake_ticks wakes) k.ticks))
        (sleep_loop dev target wakes k)
unfolding sleep_loop Timer.sleep_loop
sleep_loop-Sleeps dev target [] k v h = elim (Bool-cases (ltb k.ticks target)) [
  | inl lt ↦ rw lt (_, refl, (refl, v))
  | inr ge ↦ rw ge (_, refl, (refl, refl, v))
]
sleep_loop-Sleeps dev target (is ∷ wakes) k v (lines, h) = elim (Bool-cases (ltb k.ticks target)) [
  | inl lt ↦ rw lt (
      Yields-bind _ _ (deliver-Sound dev is k v (lines, tt))
        λ a (k', ea, ticks, v'). rw (ea, ← ticks) (sleep_loop-Sleeps dev target wakes k' v' h))
  | inr ge ↦ rw ge (_, refl, (refl, refl, v))
]

-- On a sound kernel and interrupts of the controllers' lines, `sleep_ticks` does not fault, and
-- sleeps on or wakes exactly as it does on the ticks that the timer's interrupts count, with the
-- same counter and the same interrupts left.
pub sleep_ticks-Sleeps :
    (dev : Device) (n : ℕ) (wakes : List (List Interrupt)) (k : Kernel)
    → Sound k
    → AllWakes wakes
    → Yields
        (λ r. Sleeps r (Timer.sleep_ticks n (wake_ticks wakes) k.ticks))
        (sleep_ticks dev n wakes k)
unfolding sleep_ticks Timer.sleep_ticks
sleep_ticks-Sleeps dev n wakes k v h = sleep_loop-Sleeps dev ((k.ticks + n) % 2 ^ 64) wakes k v h

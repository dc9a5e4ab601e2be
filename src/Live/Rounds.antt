-- ===== src/Live/Rounds.antt =====
-- A round of the shell on interrupts is the round on the scancodes that they read.
use feudos.Prelude.{
  ℕ, zero, suc, ◌+◌, ◌-◌, ◌%◌, ◌^◌, ◌<◌, ◌≡◌, refl, arith, Option, none, some, List, [], ◌>>=◌,
  store,
}
use feudos.Str.{c_string}
use feudos.Io.{Device}
use feudos.Vga.{Screen}
use feudos.Printf.{kprintf}
use feudos.Timer.{ticked}
use feudos.Keyboard
use feudos.Keyboard.{Keyboard, kbd_buf_size}
use feudos.Idt.{Kernel}
use feudos.Ksh
use feudos.Ksh.{Cpuid, Ended, line_size, ksh_exec}
use feudos.Live.{
  Interrupt, Reading, waiting, line, stopped, Round, reading, ran, kbd_readline, ksh_line,
  ksh_round,
}
use feudos.Live.Delivery.{ticks_in}
use feudos.Live.Lines.{
  AllWakes, wake_scancodes, in_a_row, Passed, Agrees, Agrees-mono, kbd_readline-Agrees,
}

-- Rounds with the same keyboard, line and end, the kernel's state in `P`, and the counter that the
-- command has seen.
abbrev pub AgreesRound : (Kernel → Type 0) → ℕ → Option Round → Option Ksh.Round → Type 0
AgreesRound P ticks none none = Unit
AgreesRound P ticks (some (reading k)) (some (Ksh.reading kb s)) =
    (k.keyboard ≡ kb) × (k.screen ≡ s) × P k
AgreesRound P ticks (some (ran bytes k e)) (some (Ksh.ran bytes' kb e')) =
    (bytes ≡ bytes') × (k.keyboard ≡ kb) × (e ≡ e') × (k.ticks ≡ ticks) × P k
AgreesRound P ticks _ _ = ⊥

ran_line :
    (P : Kernel → Type 0) (k : Kernel) (cut : Option (List ℕ)) (run : List ℕ → Option Ended)
    → P k
    → AgreesRound P k.ticks
        (do c ← cut; e ← run c; some (ran c k e))
        (do c ← cut; e ← run c; some (Ksh.ran c k.keyboard e))
ran_line P k none run p = tt
ran_line P k (some c) run p = executed (run c)
  where
    executed :
        (e : Option Ended)
        → AgreesRound P k.ticks
            (do e' ← e; some (ran c k e'))
            (do e' ← e; some (Ksh.ran c k.keyboard e'))
    executed none = tt
    executed (some e) = (refl, refl, refl, refl, p)

-- What a round does with what was read.
line-AgreesRound :
    (id : Cpuid) (P : Kernel → Type 0) (m : Option Reading) (n : Option Keyboard.Reading)
    → ((k : Kernel) → P k → k.ticks < 2 ^ 64)
    → Agrees P m n
    → (t : ℕ) × (t < 2 ^ 64) × AgreesRound P t (m >>= ksh_line id) (n >>= Ksh.ksh_line id t)
unfolding ksh_line Ksh.ksh_line
line-AgreesRound id P none none small a = (0, omega arith, tt)
line-AgreesRound id P (some (waiting k)) (some (Keyboard.waiting kb s)) small (ek, es, p) =
    (0, omega arith, (ek, es, p))
line-AgreesRound id P (some (line bytes n k)) (some (Keyboard.line bytes' n' kb s)) small
      (eb, en, ek, es, p) =
    (
      k.ticks,
      small k p,
      rw (← eb, ← en, ← ek, ← es)
          (ran_line P k (store bytes ((n + 2 ^ 64 - 1) % 2 ^ 64) 0)
            (λ c. ksh_exec id k.ticks c k.screen) p),
    )
line-AgreesRound id P none (some r) small a = absurd a
line-AgreesRound id P (some (stopped k)) n small a = absurd a
line-AgreesRound id P (some (waiting k)) none small a = absurd a
line-AgreesRound id P (some (waiting k)) (some (Keyboard.line bytes n kb s)) small a = absurd a
line-AgreesRound id P (some (line bytes n k)) none small a = absurd a
line-AgreesRound id P (some (line bytes n k)) (some (Keyboard.waiting kb s)) small a = absurd a

ticked_small : (n ticks : ℕ) → ticks < 2 ^ 64 → ticked n ticks < 2 ^ 64
unfolding ticked feudos.Timer.timer_tick
ticked_small zero ticks h = h
ticked_small (suc n) ticks h = ticked_small n ((ticks + 1) % 2 ^ 64) (omega arith)

pub Passed-small :
    (dev : Device) (wakes : List (List Interrupt)) (k k' : Kernel)
    → k.ticks < 2 ^ 64
    → Passed dev wakes k k'
    → k'.ticks < 2 ^ 64
Passed-small dev wakes k k' h p = rw p.counted (ticked_small (ticks_in (in_a_row p.done)) k.ticks h)

-- The screen does not matter to what has come.
Passed-screen :
    (dev : Device) (wakes : List (List Interrupt)) (k k' : Kernel) (s : Screen)
    → Passed dev wakes (record k { screen = s }) k'
    → Passed dev wakes k k'
Passed-screen dev wakes k k' s p = record {
  done = p.done;
  rest = p.rest;
  split = p.split;
  counted = p.counted;
  accessed = p.accessed;
}

pub round-AgreesRound :
    (dev : Device) (id : Cpuid) (buffer : List ℕ) (wakes : List (List Interrupt)) (k : Kernel)
    → k.ticks < 2 ^ 64
    → AllWakes wakes
    → (t : ℕ) × (t < 2 ^ 64)
      × AgreesRound
          (Passed dev wakes k)
          t
          (ksh_round dev id buffer wakes k)
          (Ksh.ksh_round id t buffer (wake_scancodes dev wakes k.ports) k.keyboard k.screen)
unfolding ksh_round Ksh.ksh_round
round-AgreesRound dev id buffer wakes k small h = prompted (kprintf (c_string "ksh> ") [] k.screen)
  where
    prompted :
        (m : Option Screen)
        → (t : ℕ) × (t < 2 ^ 64)
          × AgreesRound
              (Passed dev wakes k)
              t
              (do
                s ← m
                r ← kbd_readline dev buffer line_size wakes (record k { screen = s })
                ksh_line id r)
              (do
                s ← m
                r ←
                    Keyboard.kbd_readline buffer line_size
                      (wake_scancodes dev wakes k.ports)
                      k.keyboard
                      s
                Ksh.ksh_line id t r)
    prompted none = (0, omega arith, tt)
    prompted (some s) =
        line-AgreesRound id (Passed dev wakes k) _ _ (λ k' p. Passed-small dev wakes k k' small p)
          (Agrees-mono _ _ (λ k' p. Passed-screen dev wakes k k' s p)
            (kbd_readline-Agrees dev buffer line_size wakes (record k { screen = s }) h))

-- A live round with the same line and end as a round that has run.
pub agrees_ran :
    (P : Kernel → Type 0) (ticks : ℕ) (bytes : List ℕ) (kb : Keyboard) (e : Ended)
    (m : Option Round)
    → AgreesRound P ticks m (some (Ksh.ran bytes kb e))
    → (k : Kernel) × (m ≡ some (ran bytes k e)) × (k.keyboard ≡ kb) × (k.ticks ≡ ticks) × P k
agrees_ran P ticks bytes kb e none a = absurd a
agrees_ran P ticks bytes kb e (some (reading k)) a = absurd a
agrees_ran P ticks bytes kb e (some (stopped k)) a = absurd a
agrees_ran P ticks bytes kb e (some (ran bytes' k e')) (eb, ek, ee, et, p) =
    (k, rw (eb, ee) refl, ek, et, p)

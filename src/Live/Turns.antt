-- ===== src/Live/Turns.antt =====
-- A round of the shell on interrupts: from the interrupts of the keyboard to the command that runs.
use feudos.Prelude.{
  ℕ, ◌-◌, ◌^◌, ◌<◌, ◌≡◌, ◌∙◌, ap, refl, sym, arith, some, List, [], ◌∷◌, ◌++◌, length, Yields,
}
use feudos.Io.{Device, Trace}
use feudos.Vga.{Screen}
use feudos.Keyboard.{Keyboard, kbd_buf_size}
use feudos.Keyboard.Readline.{AllBytes, complete, line_of_keys}
use feudos.Idt.{Kernel}
use feudos.Idt.Irq.{Sound}
use feudos.Ksh
use feudos.Ksh.{Cpuid, Ended, line_size, ksh_exec}
use feudos.Ksh.Outcome.{Described}
use feudos.Ksh.Turn.{Turned, ksh_round-Turned}
use feudos.Live.{Interrupt, Round, ran, ksh_round}
use feudos.Live.Delivery.{all_ports, scancodes-Bytes}
use feudos.Live.Lines.{AllWakes, wake_scancodes, Passed}
use feudos.Live.Rounds.{Passed-small, round-AgreesRound, agrees_ran}

wake_scancodes-AllBytes :
    (dev : Device) (wakes : List (List Interrupt)) (ports : Trace)
    → AllBytes (wake_scancodes dev wakes ports)
unfolding wake_scancodes
wake_scancodes-AllBytes dev [] ports = tt
wake_scancodes-AllBytes dev (is ∷ wakes) ports =
    (scancodes-Bytes dev is ports, wake_scancodes-AllBytes dev wakes (all_ports dev is ports))

-- The round that has read the line `ln`, by the typed characters `cs`, and run it: the interrupts
-- of some `hlt`s have come, the first of `wakes`, and the command has seen their ticks.
pub record Ran (dev : Device) (id : Cpuid) (ln cs : List ℕ) (wakes : List (List Interrupt))
    (k : Kernel) (r : Round) : Type 0 where
  pub kernel : Kernel
  pub line_bytes : List ℕ
  pub end : Ended
  pub outcome : r ≡ ran line_bytes kernel end
  pub passed : Passed dev wakes k kernel
  pub turned :
      Turned id kernel.ticks ln cs k.keyboard k.screen (Ksh.ran line_bytes kernel.keyboard end)

Turned-same :
    (id : Cpuid) (ticks ticks' : ℕ) (ln cs : List ℕ) (kb : Keyboard) (s : Screen) (r r' : Ksh.Round)
    → ticks' ≡ ticks
    → r ≡ r'
    → Turned id ticks ln cs kb s r
    → Turned id ticks' ln cs kb s r'
Turned-same id ticks ticks' ln cs kb s r r' e f d = rw (e, ← f) d

module _ (dev : Device) (id : Cpuid) (vendor brand : List ℕ)
    (described : Described id vendor brand) where
  pub ksh_round-Ran :
      (ln cs : List ℕ) (buffer : List ℕ) (wakes : List (List Interrupt)) (k : Kernel)
      → Sound k
      → k.ticks < 2 ^ 64
      → AllWakes wakes
      → length ln < 127
      → length buffer ≡ line_size
      → line_of_keys
          (kbd_buf_size - 1 - k.keyboard.kbd_buf.pos)
          k.keyboard.shift_held
          []
          []
          (wake_scancodes dev wakes k.ports)
        ≡ some (complete cs (ln ++ 10 ∷ []))
      → Yields (Ran dev id ln cs wakes k) (ksh_round dev id buffer wakes k)
  ksh_round-Ran ln cs buffer wakes k v small h fits hb typed_it =
      let (t, ht, a) = round-AgreesRound dev id buffer wakes k small h in
      let (r, er, d) =
        ksh_round-Turned id vendor brand t described ht ln cs
          (kbd_buf_size - 1 - k.keyboard.kbd_buf.pos) buffer (wake_scancodes dev wakes k.ports)
          k.keyboard k.screen v.buffer_valid v.screen_valid fits hb
          (wake_scancodes-AllBytes dev wakes k.ports) (omega (arith, v.buffer_valid.room))
          typed_it in
      let bytes = ln ++ 0 ∷ d.behind_line in
      let (k', ek, same, ticks, passed) =
        agrees_ran _ t bytes d.keyboard d.end _ (rw (er ∙ ap some d.outcome) at a) in
      (
        ran bytes k' d.end,
        ek,
        record {
          kernel = k';
          line_bytes = bytes;
          end = d.end;
          outcome = refl;
          passed = passed;
          turned =
              Turned-same id t k'.ticks ln cs k.keyboard k.screen r _ ticks
                (d.outcome ∙ ap (λ kb. Ksh.ran bytes kb d.end) (sym same)) d;
        },
      )

pub Ran-small :
    (dev : Device) (id : Cpuid) (ln cs : List ℕ) (wakes : List (List Interrupt)) (k : Kernel)
    (r : Round)
    → k.ticks < 2 ^ 64
    → (d : Ran dev id ln cs wakes k r) → d.kernel.ticks < 2 ^ 64
Ran-small dev id ln cs wakes k r h d = Passed-small dev wakes k d.kernel h d.passed

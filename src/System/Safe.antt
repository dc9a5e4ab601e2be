-- ===== src/System/Safe.antt =====
-- The running kernel: no interrupt and no character makes it fault, in any order.
use feudos.Prelude.{ℕ, ◌≡◌, ◌∙◌, sym, Yields, Yields-mono}
use feudos.Io.{Device}
use feudos.Idt.{IdtCtx, Kernel, After, resumed, halted, interrupt_dispatch}
use feudos.Idt.Irq.{Sound}
use feudos.Idt.Dispatch.{Leaves, interrupt_dispatch-Sound}
use feudos.Vga.{vga_putc}
use feudos.Vga.Valid.{IsValid}
use feudos.Vga.Putc.{vga_putc-Printed}
use feudos.System.{Step, interrupt, printed, Reach, here, next}

Leaves-resumed : (a : After) (k : Kernel) → Leaves Sound a → a ≡ resumed k → Sound k
Leaves-resumed (resumed t) k s e = let f : t ≡ k = cc e in rw (← f) s
Leaves-resumed (halted t) k s e = absurd (cc e)

pub Step-Sound : (dev : Device) {k k' : Kernel} → Step dev k k' → Sound k → Sound k'
Step-Sound dev {k = k} {k' = k'} (interrupt cr2 ctx e) s =
    let (a, ea, la) = interrupt_dispatch-Sound dev cr2 ctx k s in
    let f : a ≡ resumed k' = cc (sym ea ∙ e) in Leaves-resumed a k' la f
Step-Sound dev {k = k} (printed {t = t} c color e) s =
    let (t', e', p) = vga_putc-Printed k.screen c color s.screen_valid in
    let same : t' ≡ t = cc (e, e') in
    record { screen_valid = rw same at p.valid; buffer_valid = s.buffer_valid }

pub Reach-Sound : (dev : Device) {k k' : Kernel} → Sound k → Reach dev k k' → Sound k'
Reach-Sound dev s here = s
Reach-Sound dev s (next r st) = Step-Sound dev st (Reach-Sound dev s r)

-- From a valid screen and keyboard buffer, after any interrupts, exceptions that resume, and characters
-- that the program prints between them, in any order, the screen and the buffer are valid: the next
-- interrupt, whatever it is, is handled without a fault, and the next character is printed without
-- one.
pub Reach-Safe :
    (dev : Device) {k k' : Kernel}
    → Sound k
    → Reach dev k k'
    → Sound k'
      × ((cr2 : ℕ) (ctx : IdtCtx) → Yields (Leaves Sound) (interrupt_dispatch dev cr2 ctx k'))
      × ((c color : ℕ) → Yields IsValid (vga_putc c color k'.screen))
Reach-Safe dev {k' = k'} s r =
    let sound = Reach-Sound dev s r in
    (
      sound,
      (λ cr2 ctx. interrupt_dispatch-Sound dev cr2 ctx k' sound),
      λ c color.
          Yields-mono _ (vga_putc-Printed k'.screen c color sound.screen_valid) (λ t p. p.valid),
    )

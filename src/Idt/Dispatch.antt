-- ===== src/Idt/Dispatch.antt =====
-- arch/x86_64/idt.c, `interrupt_dispatch`: what each interrupt does to the kernel.
use feudos.Prelude.{
  ℕ, ◌≡◌, refl, true, false, Bool, Option, some, List, ◌++◌, arith, leb, ◌==◌, ◌&&◌, if◌then◌else◌,
  ◌>>=◌, Yields, Yields-bind, Yields-if, Yields-mono,
}
use feudos.Io.{Device}
use feudos.Vga.{Screen}
use feudos.Printf.Format.{Event, replay}
use feudos.Printf.Prints.{Prints, literal}
use feudos.Idt.{
  IdtCtx, Kernel, After, resumed, halted, printed, panicked, timer_irq, keyboard_irq,
  interrupt_dispatch,
}
use feudos.Idt.Irq.{Sound, keyboard_irq-entered}
use feudos.Idt.Messages.{
  registers, panic, field, fault_events, page_fault_events, unknown_events, division_by_zero-Prints,
  breakpoint-Prints, illegal_instruction-Prints, double_fault-Prints, protection_fault-Prints,
  page_fault-Prints, unknown_exception-Prints,
}

-- The state that an interrupt leaves.
abbrev pub Leaves : (Kernel → Type 0) → After → Type 0
Leaves P (resumed k) = P k
Leaves P (halted k) = P k

printed-Sound :
    (show : Screen → Option Screen) (es : List Event) (k : Kernel)
    → Prints show es
    → Sound k
    → Yields (Leaves Sound) (printed show k)
printed-Sound show es k p v =
    Yields-bind _ _ (p k.screen v.screen_valid).1
      λ t vt. (_, refl, record { screen_valid = vt; buffer_valid = v.buffer_valid })

panicked-Sound :
    (show : Screen → Option Screen) (es : List Event) (k : Kernel)
    → Prints show es
    → Sound k
    → Yields (Leaves Sound) (panicked show k)
panicked-Sound show es k p v =
    Yields-bind _ _ (p k.screen v.screen_valid).1
      λ t vt. (_, refl, record { screen_valid = vt; buffer_valid = v.buffer_valid })

keyboard_irq-Sound :
    (dev : Device) (k : Kernel) → Sound k → Yields (Leaves Sound) (keyboard_irq dev k)
keyboard_irq-Sound dev k v =
    Yields-mono _ (keyboard_irq-entered dev k v) λ a (k', e, entry, _, _, _).
      rw e record { screen_valid = entry.screen.valid; buffer_valid = entry.valid }

-- On a valid screen and keyboard buffer every interrupt is handled without a fault, whatever its
-- vector, and both are valid after it.
pub interrupt_dispatch-Sound :
    (dev : Device) (cr2 : ℕ) (ctx : IdtCtx) (k : Kernel)
    → Sound k
    → Yields (Leaves Sound) (interrupt_dispatch dev cr2 ctx k)
unfolding interrupt_dispatch timer_irq
interrupt_dispatch-Sound dev cr2 ctx k v =
    let same : (k' : Kernel) → (k'.screen ≡ k.screen) → (k'.keyboard ≡ k.keyboard) → Sound k' =
      λ k' es ek. record {
        screen_valid = rw es v.screen_valid;
        buffer_valid = rw ek v.buffer_valid;
      } in
    Yields-if (ctx.vector == 0) _ _ (panicked-Sound _ _ k (division_by_zero-Prints ctx) v) (
      Yields-if (ctx.vector == 0x03) _ _ (printed-Sound _ _ k (breakpoint-Prints ctx) v) (
        Yields-if (ctx.vector == 0x06) _ _ (panicked-Sound _ _ k (illegal_instruction-Prints ctx) v)
          (Yields-if (ctx.vector == 0x08) _ _ (printed-Sound _ _ k double_fault-Prints v) (
            Yields-if (ctx.vector == 0x0D) _ _ (printed-Sound _ _ k (protection_fault-Prints ctx) v)
              (Yields-if (ctx.vector == 0x0E) _ _
                (panicked-Sound _ _ k (page_fault-Prints ctx cr2) v)
                (Yields-if (ctx.vector == 0x20) _ _ (_, refl, same _ refl refl)
                  (Yields-if (ctx.vector == 0x21) _ _ (keyboard_irq-Sound dev k v) (
                    Yields-if (leb 0x20 ctx.vector && leb ctx.vector 0x2F) _ _
                      (_, refl, same _ refl refl)
                      (printed-Sound _ _ k (unknown_exception-Prints ctx) v)))))))))

-- How an exception ends: whether the machine halts, and what is shown.
abbrev pub exception : IdtCtx → ℕ → Bool × List Event
exception ctx cr2 =
    if ctx.vector == 0
    then (true, registers ctx ++ panic "Unhandled division by zero.\n")
    else if ctx.vector == 0x03
    then (false, field "[DEBUG] Reached breakpoint at RIP: 0x" ctx.rip)
    else if ctx.vector == 0x06
    then (true, registers ctx ++ panic "Illegal instruction.")
    else if ctx.vector == 0x08
    then (false, literal "Double fault! Unrecoverable CPU state.\n")
    else if ctx.vector == 0x0D
    then (false, fault_events ctx)
    else if ctx.vector == 0x0E
    then (true, page_fault_events ctx cr2)
    else (false, unknown_events ctx)

abbrev pub ends : Bool × List Event → Kernel → Option After
ends (halts, es) k = do
  t ← replay es k.screen
  some ((if halts then halted else resumed) (record k { screen = t }))

if-ends :
    (b : Bool) (m n : Option After) (p q : Bool × List Event) (k : Kernel)
    → m ≡ ends p k
    → n ≡ ends q k
    → (if b then m else n) ≡ ends (if b then p else q) k
if-ends true m n p q k h g = h
if-ends false m n p q k h g = g

printed-ends :
    (show : Screen → Option Screen) (es : List Event) (k : Kernel)
    → Prints show es
    → Sound k
    → printed show k ≡ ends (false, es) k
printed-ends show es k p v = rw (p k.screen v.screen_valid).0 refl

panicked-ends :
    (show : Screen → Option Screen) (es : List Event) (k : Kernel)
    → Prints show es
    → Sound k
    → panicked show k ≡ ends (true, es) k
panicked-ends show es k p v = rw (p k.screen v.screen_valid).0 refl

-- On a valid screen and keyboard buffer an interrupt outside the vectors 0x20 to 0x2F shows the
-- message of its exception and changes nothing else; the division by zero, the illegal instruction
-- and the page fault halt the machine, and every other one resumes, also the double fault and the
-- protection fault.
pub interrupt_dispatch-exception :
    (dev : Device) (cr2 : ℕ) (ctx : IdtCtx) (k : Kernel)
    → Sound k
    → (leb 0x20 ctx.vector && leb ctx.vector 0x2F) ≡ false
    → interrupt_dispatch dev cr2 ctx k ≡ ends (exception ctx cr2) k
unfolding interrupt_dispatch
interrupt_dispatch-exception dev cr2 ctx k v out =
    let no_timer : ctx.vector == 0x20 ≡ false = ground arith in
    let no_key : ctx.vector == 0x21 ≡ false = ground arith in
    rw (no_timer, no_key, out)
      (if-ends (ctx.vector == 0) _ _ _ _ k (panicked-ends _ _ k (division_by_zero-Prints ctx) v) (
        if-ends (ctx.vector == 0x03) _ _ _ _ k (printed-ends _ _ k (breakpoint-Prints ctx) v) (
          if-ends (ctx.vector == 0x06) _ _ _ _ k
            (panicked-ends _ _ k (illegal_instruction-Prints ctx) v)
            (if-ends (ctx.vector == 0x08) _ _ _ _ k (printed-ends _ _ k double_fault-Prints v) (
              if-ends (ctx.vector == 0x0D) _ _ _ _ k
                (printed-ends _ _ k (protection_fault-Prints ctx) v)
                (if-ends (ctx.vector == 0x0E) _ _ _ _ k
                  (panicked-ends _ _ k (page_fault-Prints ctx cr2) v)
                  (printed-ends _ _ k (unknown_exception-Prints ctx) v)))))))

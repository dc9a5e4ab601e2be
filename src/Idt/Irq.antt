-- ===== src/Idt/Irq.antt =====
-- arch/x86_64/idt.c, `interrupt_dispatch`: the interrupts of the controllers.
use feudos.Prelude.{
  ℕ, ◌-◌, ◌≤◌, ◌≡◌, ◌≢◌, refl, true, false, Bool-cases, inl, inr, some, ◌∷◌, arith, leb, ◌==◌, ◌&&◌,
  if◌then◌else◌, Yields, Yields-bind, ne→==false, sym,
}
use feudos.Io.{Device, got, byte, inb}
use feudos.Vga.Valid
use feudos.Timer.{timer_tick}
use feudos.Pic.{pic_send_eoi}
use feudos.Keyboard.Edit
use feudos.Keyboard.Scancode.{Entered, entered, shift_after, kbd_handle_scancode-entered}
use feudos.Idt.{IdtCtx, Kernel, resumed, timer_irq, keyboard_irq, interrupt_dispatch}

-- The kernel's state between interrupts.
pub record Sound (k : Kernel) : Type 0 where
  pub screen_valid : Valid.IsValid k.screen
  pub buffer_valid : Edit.IsValid k.keyboard.kbd_buf

-- The keyboard's interrupt, as the handler serves it.
pub keyboard_irq-entered :
    (dev : Device) (k : Kernel)
    → Sound k
    → let sc = byte (dev k.ports 0x60) in
      Yields
        (λ a.
          (k' : Kernel) × (a ≡ resumed k')
          × Entered (entered k.keyboard.shift_held sc) k.keyboard k.screen k'.keyboard k'.screen
          × (k'.keyboard.shift_held ≡ shift_after k.keyboard.shift_held sc)
          × (k'.ticks ≡ k.ticks)
          × (k'.ports ≡ pic_send_eoi 1 (got 0x60 sc ∷ k.ports)))
        (keyboard_irq dev k)
unfolding keyboard_irq inb
keyboard_irq-entered dev k v =
    Yields-bind _ _
      (kbd_handle_scancode-entered (byte (dev k.ports 0x60)) k.keyboard k.screen (omega arith)
        v.buffer_valid v.screen_valid)
      λ (k', t) (e, h). (_, refl, (_, refl, e, h, refl, refl))

-- The dispatch of the keyboard's vector.
pub interrupt_dispatch-keyboard :
    (dev : Device) (cr2 : ℕ) (ctx : IdtCtx) (k : Kernel)
    → Sound k
    → ctx.vector ≡ 0x21
    → let sc = byte (dev k.ports 0x60) in
      Yields
        (λ a.
          (k' : Kernel) × (a ≡ resumed k')
          × Entered (entered k.keyboard.shift_held sc) k.keyboard k.screen k'.keyboard k'.screen
          × (k'.keyboard.shift_held ≡ shift_after k.keyboard.shift_held sc)
          × (k'.ticks ≡ k.ticks)
          × (k'.ports ≡ pic_send_eoi 1 (got 0x60 sc ∷ k.ports)))
        (interrupt_dispatch dev cr2 ctx k)
unfolding interrupt_dispatch
interrupt_dispatch-keyboard dev cr2 ctx k v h = rw h (keyboard_irq-entered dev k v)

-- An interrupt of the vectors 0x20 to 0x2F but the keyboard's ends its line at the controllers,
-- counts a tick if it is the timer's, and changes nothing else.
pub interrupt_dispatch-irq :
    (dev : Device) (cr2 : ℕ) (ctx : IdtCtx) (k : Kernel)
    → 0x20 ≤ ctx.vector
    → ctx.vector ≤ 0x2F
    → ctx.vector ≢ 0x21
    → interrupt_dispatch dev cr2 ctx k
      ≡ some (
          resumed (record k {
            ticks = if ctx.vector == 0x20 then timer_tick k.ticks else k.ticks;
            ports = pic_send_eoi (ctx.vector - 0x20) k.ports;
          }))
unfolding interrupt_dispatch timer_irq
interrupt_dispatch-irq dev cr2 ctx k lo hi ne =
    let other : (n : ℕ) → n ≢ ctx.vector → ctx.vector == n ≡ false =
      λ n h. ne→==false ctx.vector n (λ e. h (sym e)) in
    let inside : (leb 0x20 ctx.vector && leb ctx.vector 0x2F) ≡ true = ground arith in
    rw
      (
        other 0 (omega arith),
        other 0x03 (omega arith),
        other 0x06 (omega arith),
        other 0x08 (omega arith),
        other 0x0D (omega arith),
        other 0x0E (omega arith),
        other 0x21 (omega arith),
        inside,
      )
      (elim (Bool-cases (ctx.vector == 0x20)) [
        | inl e ↦ let zero_line : ctx.vector - 0x20 ≡ 0 = ground arith in rw (e, zero_line) refl
        | inr e ↦ rw e refl
      ])

-- ===== src/Idt/Lines.antt =====
-- arch/x86_64/idt.c, `interrupt_dispatch`: what each line of the controllers is served with.
use feudos.Prelude.{
  ℕ, suc, ◌+◌, ◌-◌, ◌%◌, ◌^◌, ◌≤◌, ◌≡◌, ◌∙◌, refl, true, false, Bool-cases, inl, inr, [], ◌∷◌,
  arith, leb, ltb, ◌==◌, if◌then◌else◌, Yields, Yields-mono,
}
use feudos.Io.{Device, Trace, wrote, got, byte, outb}
use feudos.Timer.{timer_tick}
use feudos.Pic.{pic_send_eoi}
use feudos.Pic.Chips.{Chip, chip1, chip2}
use feudos.Pic.Masks.{pic_send_eoi-ended}
use feudos.Keyboard.Scancode.{Entered, Entered-nil, entered, shift_after}
use feudos.Idt.{IdtCtx, Kernel, resumed, interrupt_dispatch}
use feudos.Idt.Irq.{Sound, interrupt_dispatch-keyboard, interrupt_dispatch-irq}

-- The end of interrupt, 0x20, at the command port of the first controller, and for the lines from 8
-- on at that of the second before it.
abbrev pub acknowledged : ℕ → Trace → Trace
acknowledged line tr = wrote 0x20 0x20 ∷ (if ltb line 8 then tr else wrote 0xA0 0x20 ∷ tr)

pic_send_eoi-acknowledged : (line : ℕ) (tr : Trace) → pic_send_eoi line tr ≡ acknowledged line tr
unfolding pic_send_eoi outb
pic_send_eoi-acknowledged line tr = elim (Bool-cases (leb 8 line)) [
  | inl e ↦ let f : ltb line 8 ≡ false = ground arith in rw (e, f) refl
  | inr e ↦ let f : ltb line 8 ≡ true = ground arith in rw (e, f) refl
]

-- The kernel before and after the interrupt of a line has been served: line 1 reads a scancode at port
-- 0x60 and enters it, line 0 counts a tick, and each is ended at its controllers.
pub record Served (dev : Device) (line : ℕ) (k k' : Kernel) : Type 0 where
  pub keys :
      Entered
        (if line == 1 then entered k.keyboard.shift_held (byte (dev k.ports 0x60)) else [])
        k.keyboard
        k.screen
        k'.keyboard
        k'.screen
  pub shift : k'.keyboard.shift_held ≡ (
      if line == 1
      then shift_after k.keyboard.shift_held (byte (dev k.ports 0x60))
      else k.keyboard.shift_held)
  pub counter : k'.ticks ≡ (if line == 0 then (k.ticks + 1) % 2 ^ 64 else k.ticks)
  pub accesses :
      k'.ports
      ≡ acknowledged line
          (if line == 1 then got 0x60 (byte (dev k.ports 0x60)) ∷ k.ports else k.ports)
  pub first :
      (start : Chip)
      → chip1 start k'.ports
        ≡ record (chip1 start k.ports) { ended = suc (chip1 start k.ports).ended }
  pub second :
      (start : Chip)
      → chip2 start k'.ports ≡ (
          if ltb line 8
          then chip2 start k.ports
          else record (chip2 start k.ports) { ended = suc (chip2 start k.ports).ended })

-- On a valid screen and buffer the interrupt of a controllers' line, of the vectors 0x20 to 0x2F, does
-- not fault and resumes. The keyboard's, and it alone, reads one scancode at port 0x60, enters its
-- character into the typed text and on the screen, and follows the shift keys; the timer's, and it
-- alone, counts a tick in 64 bits. Each then writes 0x20 to port 0x20, and from line 8 on to port 0xA0
-- before: the first controller has ended one interrupt more, and the second exactly for these lines,
-- and both are otherwise as they were.
pub interrupt_dispatch-Served :
    (dev : Device) (cr2 : ℕ) (ctx : IdtCtx) (k : Kernel)
    → Sound k
    → 0x20 ≤ ctx.vector
    → ctx.vector ≤ 0x2F
    → Yields
        (λ a. (k' : Kernel) × (a ≡ resumed k') × Served dev (ctx.vector - 0x20) k k')
        (interrupt_dispatch dev cr2 ctx k)
unfolding timer_tick
interrupt_dispatch-Served dev cr2 ctx k v lo hi = elim (Bool-cases (ctx.vector == 0x21)) [
  | inl key ↦
      let at : ctx.vector ≡ 0x21 = ground arith in
      Yields-mono _ (interrupt_dispatch-keyboard dev cr2 ctx k v at) λ a (k', ea, e, sh, et, ep).
        let tr : Trace = got 0x60 (byte (dev k.ports 0x60)) ∷ k.ports in
        (
          k',
          ea,
          rw at record {
            keys = e;
            shift = sh;
            counter = et;
            accesses = ep ∙ pic_send_eoi-acknowledged 1 tr;
            first = λ start. rw ep (pic_send_eoi-ended start start 1 tr).0;
            second = λ start. rw ep (pic_send_eoi-ended start start 1 tr).1;
          },
        )
  | inr other ↦
      let no_key : ctx.vector - 0x20 == 1 ≡ false = ground arith in
      let timer : ctx.vector == 0x20 ≡ (ctx.vector - 0x20 == 0) = ground arith in
      (
        _,
        interrupt_dispatch-irq dev cr2 ctx k lo hi (λ e. ground arith),
        (
          _,
          refl,
          record {
            keys = rw no_key (
                Entered-nil k.keyboard k.screen k.keyboard.shift_held v.buffer_valid
                  v.screen_valid);
            shift = rw no_key refl;
            counter = rw timer refl;
            accesses = rw no_key (pic_send_eoi-acknowledged (ctx.vector - 0x20) k.ports);
            first = λ start. (pic_send_eoi-ended start start (ctx.vector - 0x20) k.ports).0;
            second = λ start. (pic_send_eoi-ended start start (ctx.vector - 0x20) k.ports).1;
          },
        ),
      )
]

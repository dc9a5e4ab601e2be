-- ===== src/Live/Delivery.antt =====
-- The interrupts of one `hlt`: what those of the controllers' lines do together.
use feudos.Prelude.{
  ℕ, ◌+◌, ◌-◌, ◌≡◌, ◌∙◌, ap, refl, sym, Bool-cases, inl, inr, some, List, [], ◌∷◌, ◌++◌, arith,
  ◌==◌, if◌then◌else◌, ◌>>=◌, bind_cong, bind_assoc, ==_iff,
}
use feudos.Io.{Device, Trace, byte, got, inb}
use feudos.Vga.{Screen}
use feudos.Pic.{pic_send_eoi}
use feudos.Timer.{ticked}
use feudos.Keyboard.{Keyboard, handle_all}
use feudos.Keyboard.Keys.{Bytes, handle_all-append, handle_all-nil, handle_all-one}
use feudos.Idt.{IdtCtx, Kernel, resumed, keyboard_irq, interrupt_dispatch}
use feudos.Idt.Irq.{interrupt_dispatch-irq}
use feudos.System.{IsLine, ticks_of}
use feudos.System.Serving.{Bytes-append, ticked-append, ticks_of-ticked, dispatch-keyboard}
use feudos.Live.{Interrupt, go_on, deliver}

-- All interrupts are of the controllers' lines.
abbrev pub AllLines : List Interrupt → Type 0
AllLines [] = Unit
AllLines (i ∷ is) = IsLine i.ctx.vector × AllLines is

-- What an interrupt reads from the keyboard, and the accesses that it makes.
abbrev pub scancode_of : Device → ℕ → Trace → List ℕ
scancode_of dev vector ports = if vector == 0x21 then byte (dev ports 0x60) ∷ [] else []

abbrev pub served_ports : Device → ℕ → Trace → Trace
served_ports dev vector ports =
    if vector == 0x21
    then pic_send_eoi 1 (got 0x60 (byte (dev ports 0x60)) ∷ ports)
    else pic_send_eoi (vector - 0x20) ports

-- The same of the interrupts of one `hlt`, with the ticks that they count.
unfoldable pub scancodes : Device → List Interrupt → Trace → List ℕ
scancodes dev [] ports = []
scancodes dev (i ∷ is) ports =
    scancode_of dev i.ctx.vector ports ++ scancodes dev is (served_ports dev i.ctx.vector ports)

unfoldable pub all_ports : Device → List Interrupt → Trace → Trace
all_ports dev [] ports = ports
all_ports dev (i ∷ is) ports = all_ports dev is (served_ports dev i.ctx.vector ports)

unfoldable pub ticks_in : List Interrupt → ℕ
ticks_in [] = 0
ticks_in (i ∷ is) = ticks_of i.ctx.vector + ticks_in is

abbrev pub settled : ℕ → Trace → Kernel → Keyboard × Screen → Kernel
settled ticks ports k (keyboard, screen) = record {
  screen = screen;
  keyboard = keyboard;
  ticks = ticked ticks k.ticks;
  ports = ports;
}

dispatch_line :
    (dev : Device) (cr2 : ℕ) (ctx : IdtCtx) (k : Kernel)
    → IsLine ctx.vector
    → interrupt_dispatch dev cr2 ctx k ≡ (
        handle_all (scancode_of dev ctx.vector k.ports) k.keyboard k.screen >>= λ p.
        some (resumed (settled (ticks_of ctx.vector) (served_ports dev ctx.vector k.ports) k p)))
unfolding keyboard_irq inb ticked
dispatch_line dev cr2 ctx k (lo, hi) = elim (Bool-cases (ctx.vector == 0x21)) [
  | inl key ↦
      let v : ctx.vector ≡ 0x21 = (==_iff _ _).0 key in
      dispatch-keyboard dev cr2 ctx k v
      ∙ rw (v, handle_all-one (byte (dev k.ports 0x60)) k.keyboard k.screen) refl
  | inr other ↦
      interrupt_dispatch-irq dev cr2 ctx k lo hi (λ v. ground arith)
      ∙ rw (other, handle_all-nil k.keyboard k.screen, ticks_of-ticked ctx.vector k.ticks) refl
]

-- The interrupts of the lines enter their scancodes, one after the other, count their ticks, and
-- end at the controllers.
pub deliver-handle_all :
    (dev : Device) (is : List Interrupt) (k : Kernel)
    → AllLines is
    → deliver dev is k ≡ (
        handle_all (scancodes dev is k.ports) k.keyboard k.screen >>= λ p.
        some (resumed (settled (ticks_in is) (all_ports dev is k.ports) k p)))
unfolding deliver scancodes all_ports ticks_in
deliver-handle_all dev [] k h = rw (handle_all-nil k.keyboard k.screen) (unfold ticked in refl)
deliver-handle_all dev (i ∷ is) k (line, h) =
    let ports = served_ports dev i.ctx.vector k.ports in
    let rest = scancodes dev is ports in
    let here = handle_all (scancode_of dev i.ctx.vector k.ports) k.keyboard k.screen in
    let now = settled (ticks_of i.ctx.vector) ports k in
    let end = λ (p : Keyboard × Screen).
      settled (ticks_of i.ctx.vector + ticks_in is) (all_ports dev is ports) k p in
    ap (λ m. m >>= go_on (deliver dev is)) (dispatch_line dev i.cr2 i.ctx k line)
    ∙ bind_assoc here (λ p. some (resumed (now p))) (go_on (deliver dev is))
    ∙ bind_cong here _ _ (λ (kb, s).
      deliver-handle_all dev is (now (kb, s)) h
      ∙ rw (ticked-append (ticks_of i.ctx.vector) (ticks_in is) k.ticks) refl)
    ∙ sym (bind_assoc here (λ (kb, s). handle_all rest kb s) (λ p. some (resumed (end p))))
    ∙ ap (λ m. m >>= λ p. some (resumed (end p)))
        (sym (handle_all-append (scancode_of dev i.ctx.vector k.ports) rest k.keyboard k.screen))

scancode_of-Bytes :
    (dev : Device) (vector : ℕ) (ports : Trace) → Bytes (scancode_of dev vector ports)
scancode_of-Bytes dev vector ports = elim (Bool-cases (vector == 0x21)) [
  | inl key ↦ rw key (omega arith, tt)
  | inr other ↦ rw other tt
]

-- What the keyboard's interrupts read are bytes.
pub scancodes-Bytes :
    (dev : Device) (is : List Interrupt) (ports : Trace) → Bytes (scancodes dev is ports)
unfolding scancodes
scancodes-Bytes dev [] ports = tt
scancodes-Bytes dev (i ∷ is) ports =
    Bytes-append _ _ (scancode_of-Bytes dev i.ctx.vector ports)
      (scancodes-Bytes dev is (served_ports dev i.ctx.vector ports))

-- ===== src/Idt.antt =====
-- arch/x86_64/idt.c and include/arch/x86_64/idt.h: the gates, and the dispatch of an interrupt.
-- The proofs are in the modules below.
pub mod Gates
pub mod Messages
pub mod Irq
pub mod Lines
pub mod Dispatch
mod Tests
use feudos.Prelude.{
  ℕ, suc, ◌+◌, ◌-◌, ◌/◌, ◌%◌, ◌^◌, Option, some, List, [], ◌∷◌, ◌&&◌, leb, ◌==◌, if◌then◌else◌,
  ◌>>=◌, store, for_range,
}
use feudos.Str.{c_string}
use feudos.Io.{Trace, Device, inb}
use feudos.Vga.{Screen}
use feudos.Printf.{word, kprintf}
use feudos.Keyboard.{Keyboard, kbd_handle_scancode}
use feudos.Timer.{timer_tick}
use feudos.Pic.{pic_send_eoi}
use feudos.Log.{kernel_panic}

pub record IdtEntry : Type 0 where
  pub offset_low : ℕ
  pub selector : ℕ
  pub ist : ℕ
  pub type_attr : ℕ
  pub offset_mid : ℕ
  pub offset_high : ℕ
  pub zero_word : ℕ

-- `struct idt_ctx`, the fields that the dispatch reads.
pub record IdtCtx : Type 0 where
  pub vector : ℕ
  pub errc : ℕ
  pub rip : ℕ
  pub cs : ℕ
  pub rflags : ℕ

-- The state that the handlers share: the static variables of vga.c, keyboard.c and timer.c, and
-- the accesses to the ports.
pub record Kernel : Type 0 where
  pub screen : Screen
  pub keyboard : Keyboard
  pub ticks : ℕ
  pub ports : Trace

-- The interrupt returns, or `kernel_panic` has halted the machine.
pub data After : Type 0 where
  resumed : Kernel → After
  halted : Kernel → After

unfoldable pub gate : ℕ → IdtEntry
gate addr = record {
  offset_low = addr % 2 ^ 16;
  selector = 0x08;
  ist = 0;
  type_attr = 0x8E;
  offset_mid = addr / 2 ^ 16 % 2 ^ 16;
  offset_high = addr / 2 ^ 32 % 2 ^ 32;
  zero_word = 0;
}

unfoldable pub idt_set_gate : ℕ → ℕ → List IdtEntry → Option (List IdtEntry)
idt_set_gate vec handler idt = store idt vec (gate handler)

-- The calls for the vectors 0 to 47. `isr k` is the address of the k-th routine of isr.s.
unfoldable pub idt_init : (ℕ → ℕ) → List IdtEntry → Option (List IdtEntry)
idt_init isr idt = for_range 48 0 (λ k. idt_set_gate k (isr k)) idt

-- KPANIC_DBG
unfoldable pub kpanic_dbg : IdtCtx → Screen → Option Screen
kpanic_dbg ctx s = do
  a ← kprintf (c_string "RIP    = 0x%X\n") (word ctx.rip ∷ []) s
  b ← kprintf (c_string "CS     = 0x%X\n") (word ctx.cs ∷ []) a
  kprintf (c_string "RFLAGS = 0x%X\n") (word ctx.rflags ∷ []) b

-- A case of the `switch` that only prints, and one that panics.
abbrev pub printed : (Screen → Option Screen) → Kernel → Option After
printed show k = do t ← show k.screen; some (resumed (record k { screen = t }))

abbrev pub panicked : (Screen → Option Screen) → Kernel → Option After
panicked show k = do t ← show k.screen; some (halted (record k { screen = t }))

unfoldable pub division_by_zero : IdtCtx → Screen → Option Screen
division_by_zero ctx s = do
  t ← kpanic_dbg ctx s
  kernel_panic (c_string "Unhandled division by zero.\n") [] t

unfoldable pub breakpoint : IdtCtx → Screen → Option Screen
breakpoint ctx = kprintf (c_string "[DEBUG] Reached breakpoint at RIP: 0x%X\n") (word ctx.rip ∷ [])

unfoldable pub illegal_instruction : IdtCtx → Screen → Option Screen
illegal_instruction ctx s = do
  t ← kpanic_dbg ctx s
  kernel_panic (c_string "Illegal instruction.") [] t

unfoldable pub double_fault : Screen → Option Screen
double_fault = kprintf (c_string "Double fault! Unrecoverable CPU state.\n") []

unfoldable pub protection_fault : IdtCtx → Screen → Option Screen
protection_fault ctx s = do
  t ← kpanic_dbg ctx s
  kprintf (c_string "General Protection fault; GPF err code: 0x%X\n") (word ctx.errc ∷ []) t

unfoldable pub page_fault : IdtCtx → ℕ → Screen → Option Screen
page_fault ctx cr2 s = do
  a ← kpanic_dbg ctx s
  b ← kprintf (c_string "Page Fault accessing 0x%X\n") (word cr2 ∷ []) a
  c ← kprintf (c_string "Error code (flags): 0x%X\n") (word ctx.errc ∷ []) b
  kernel_panic (c_string "Page fault.\n") [] c

unfoldable pub unknown_exception : IdtCtx → Screen → Option Screen
unknown_exception ctx =
    kprintf (c_string "Unknown exception %lu at 0x%X\n") (word ctx.errc ∷ word ctx.rip ∷ [])

unfoldable pub timer_irq : Kernel → After
timer_irq k = resumed (record k { ticks = timer_tick k.ticks; ports = pic_send_eoi 0 k.ports })

unfoldable pub keyboard_irq : Device → Kernel → Option After
keyboard_irq dev k = do
  let (scancode, ports) = inb dev 0x60 k.ports
  (keyboard, screen) ← kbd_handle_scancode scancode k.keyboard k.screen
  some (resumed (record k { screen = screen; keyboard = keyboard; ports = pic_send_eoi 1 ports }))

-- The `switch`. `cr2` is the register.
unfoldable pub interrupt_dispatch : Device → ℕ → IdtCtx → Kernel → Option After
interrupt_dispatch dev cr2 ctx k =
    if ctx.vector == 0
    then panicked (division_by_zero ctx) k
    else if ctx.vector == 0x03
    then printed (breakpoint ctx) k
    else if ctx.vector == 0x06
    then panicked (illegal_instruction ctx) k
    else if ctx.vector == 0x08
    then printed double_fault k
    else if ctx.vector == 0x0D
    then printed (protection_fault ctx) k
    else if ctx.vector == 0x0E
    then panicked (page_fault ctx cr2) k
    else if ctx.vector == 0x20
    then some (timer_irq k)
    else if ctx.vector == 0x21
    then keyboard_irq dev k
    else if leb 0x20 ctx.vector && leb ctx.vector 0x2F
    then some (resumed (record k { ports = pic_send_eoi (ctx.vector - 0x20) k.ports }))
    else printed (unknown_exception ctx) k

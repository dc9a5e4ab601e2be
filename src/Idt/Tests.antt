-- ===== src/Idt/Tests.antt =====
-- The theorems on arch/x86_64/idt.c at concrete interrupts.
use feudos.Prelude.{
  ℕ, ◌≡◌, ◌<◌, ◌≤◌, refl, [], arith, Yields, replicate, get_elem?, length-replicate, ◌+◌, ◌*◌, ◌%◌,
}
use feudos.Io.{Device}
use feudos.Vga.Sample.{fresh, fresh-IsValid}
use feudos.Keyboard
use feudos.Idt.{IdtCtx, Kernel, resumed, gate, idt_init, interrupt_dispatch}
use feudos.Idt.Gates.{Leads, idt_init-Leads}
use feudos.Idt.Irq.{Sound}
use feudos.Idt.Lines.{Served, interrupt_dispatch-Served}
use feudos.Idt.Dispatch.{exception, ends, interrupt_dispatch-exception}

abbrev kernel : Kernel
kernel = record { screen = fresh; keyboard = Keyboard.init; ticks = 7; ports = [] }

kernel-Sound : Sound kernel
kernel-Sound = record {
  screen_valid = fresh-IsValid;
  buffer_valid = record { size = refl; room = omega arith };
}

abbrev at : ℕ → IdtCtx
at vector = record { vector = vector; errc = 2; rip = 0x1000; cs = 8; rflags = 0x202 }

-- The key 'a'.
abbrev key_a : Device
key_a tr port = 0x1E

idt_init-Leads_example :
    Yields
      (λ t.
        ((k : ℕ) → k < 48 → Leads (0x100000 + 16 * (k % 48)) (get_elem? t k))
        × ((k : ℕ) → 48 ≤ k → get_elem? t k ≡ get_elem? (replicate 256 (gate 0)) k))
      (idt_init (λ k. 0x100000 + 16 * (k % 48)) (replicate 256 (gate 0)))
idt_init-Leads_example =
    idt_init-Leads (λ k. 0x100000 + 16 * (k % 48)) (replicate 256 (gate 0))
      (length-replicate 256 (gate 0)) (λ k. omega arith)

interrupt_dispatch-exception_example :
    interrupt_dispatch key_a 0xDEAD (at 0x0E) kernel ≡ ends (exception (at 0x0E) 0xDEAD) kernel
interrupt_dispatch-exception_example =
    interrupt_dispatch-exception key_a 0xDEAD (at 0x0E) kernel kernel-Sound refl

interrupt_dispatch-Served_example :
    Yields
      (λ a. (k' : Kernel) × (a ≡ resumed k') × Served key_a 1 kernel k')
      (interrupt_dispatch key_a 0 (at 0x21) kernel)
interrupt_dispatch-Served_example =
    interrupt_dispatch-Served key_a 0 (at 0x21) kernel kernel-Sound (omega arith) (omega arith)

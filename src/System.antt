-- ===== src/System.antt =====
-- The running kernel: the interrupts of arch/x86_64/idt.c and the characters that it prints as steps
-- of a machine, in any order.
-- The proofs are in the modules below.
pub mod Safe
pub mod Serving
mod Tests
use feudos.Prelude.{ℕ, ◌+◌, ◌≤◌, ◌≡◌, some, List, [], ◌∷◌, ◌++◌, ◌==◌, if◌then◌else◌}
use feudos.Io.{Device, byte}
use feudos.Vga.{Screen, vga_putc}
use feudos.Idt.{IdtCtx, Kernel, resumed, interrupt_dispatch}

-- An interrupt or an exception that resumes, whatever the processor passes, or a character that the
-- program prints between two of them.
pub data Step (dev : Device) : Kernel → Kernel → Type 0 where
  interrupt :
      {k k' : Kernel} (cr2 : ℕ) (ctx : IdtCtx)
      → interrupt_dispatch dev cr2 ctx k ≡ some (resumed k')
      → Step dev k k'
  printed :
      {k : Kernel} {t : Screen} (c color : ℕ)
      → vga_putc c color k.screen ≡ some t
      → Step dev k (record k { screen = t })

pub data Reach (dev : Device) (k : Kernel) : Kernel → Type 0 where
  here : Reach dev k k
  next : {t u : Kernel} → Reach dev k t → Step dev t u → Reach dev k u

-- The vectors of the controllers' lines.
abbrev pub IsLine : ℕ → Type 0
IsLine vector = (0x20 ≤ vector) × (vector ≤ 0x2F)

-- What the keyboard's interrupt reads, and what the timer's counts.
abbrev pub scancodes_of : Device → ℕ → Kernel → List ℕ
scancodes_of dev vector k = if vector == 0x21 then byte (dev k.ports 0x60) ∷ [] else []

abbrev pub ticks_of : ℕ → ℕ
ticks_of vector = if vector == 0x20 then 1 else 0

-- Interrupts of the lines, one after the other: the scancodes that they read, the ticks that they
-- count, and their number.
pub data Serves (dev : Device) : Kernel → List ℕ → ℕ → ℕ → Kernel → Type 0 where
  idle : {k : Kernel} → Serves dev k [] 0 0 k
  serve :
      {k t u : Kernel} {scs : List ℕ} {ticks count : ℕ} (cr2 : ℕ) (ctx : IdtCtx)
      → IsLine ctx.vector
      → interrupt_dispatch dev cr2 ctx k ≡ some (resumed t)
      → Serves dev t scs ticks count u
      → Serves dev k
          (scancodes_of dev ctx.vector k ++ scs)
          (ticks_of ctx.vector + ticks)
          (1 + count)
          u

-- ===== src/Cpu.antt =====
-- The processor's registers that arch/x86_64 sets, and the instructions that set them.
pub mod Sample
use feudos.Prelude.{ℕ, Bool, true}

-- `limit` and `base` of `struct gdt_ptr` and of `struct idt_ptr`.
pub record TablePtr : Type 0 where
  pub limit : ℕ
  pub base : ℕ

-- `interrupts` is the interrupt flag, and `fpu_reset` says that `fninit` has run.
pub record Cpu : Type 0 where
  pub gdtr : TablePtr
  pub idtr : TablePtr
  pub cs : ℕ
  pub ds : ℕ
  pub es : ℕ
  pub fs : ℕ
  pub gs : ℕ
  pub ss : ℕ
  pub cr0 : ℕ
  pub cr4 : ℕ
  pub interrupts : Bool
  pub fpu_reset : Bool

abbrev pub lidt : TablePtr → Cpu → Cpu
lidt p c = record c { idtr = p }

abbrev pub sti : Cpu → Cpu
sti c = record c { interrupts = true }

abbrev pub fninit : Cpu → Cpu
fninit c = record c { fpu_reset = true }

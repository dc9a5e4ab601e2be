-- ===== src/Init.antt =====
-- arch/x86_64/init.c: the order in which the parts of the machine are set up.
-- The proofs are in the modules below.
pub mod Lines
pub mod Messages
pub mod Started
mod Tests
use Prim.Native.String.{String}
use feudos.Prelude.{ℕ, ◌*◌, ◌-◌, Option, some, List, [], length, ◌>>=◌}
use feudos.Str.{c_string}
use feudos.Io.{Trace, Device}
use feudos.Cpu.{Cpu, TablePtr, lidt, sti}
use feudos.Gdt.{gdt_init}
use feudos.Sse.{init_sse}
use feudos.Pic.{pic_remap, pit_init, pic_set_mask, pic_clear_mask}
use feudos.Timer.{timer_freq}
use feudos.Log.{info, klog}
use feudos.Idt.{Kernel, IdtEntry, idt_init}

-- What the linker decides: where the tables `gdt` and `idt` lie, and the routines of isr.s.
pub record Image : Type 0 where
  pub gdt_at : ℕ
  pub idt_at : ℕ
  pub isr : ℕ → ℕ

-- The processor, its two tables and the state that the handlers share.
pub record Machine : Type 0 where
  pub cpu : Cpu
  pub gdt : List ℕ
  pub idt : List IdtEntry
  pub kernel : Kernel

-- From `pic_remap` to the second `pic_clear_mask`.
unfoldable pub init_pic : Device → Trace → Option Trace
init_pic dev tr = do
  t1 ← pit_init timer_freq (pic_remap dev tr)
  t2 ← pic_set_mask dev 0 t1
  t3 ← pic_clear_mask dev 0 t2
  pic_clear_mask dev 1 t3

-- The end of `idt_init`: an entry has 16 bytes.
abbrev pub idt_ptr : ℕ → List IdtEntry → TablePtr
idt_ptr base idt = record { limit = 16 * length idt - 1; base = base }

-- klog(INFO, text)
unfoldable pub log_info : String → Machine → Option Machine
log_info text m = do
  t ← klog info (c_string text) [] m.kernel.screen
  some (record m { kernel = record m.kernel { screen = t } })

-- No interrupt is delivered between `sti` and the end.
unfoldable pub arch_init : Image → Device → Machine → Option Machine
arch_init im dev m = do
  (gdt, cpu) ← gdt_init im.gdt_at m.gdt m.cpu
  m1 ← log_info "Initialized GDT.\n" (record m { gdt = gdt; cpu = cpu })
  idt ← idt_init im.isr m1.idt
  m2 ←
      log_info "Initialized IDT.\n"
        (record m1 { idt = idt; cpu = lidt (idt_ptr im.idt_at idt) m1.cpu })
  ports ← init_pic dev m2.kernel.ports
  m3 ←
      log_info "PIC initialization done.\n"
        (record m2 { kernel = record m2.kernel { ports = ports } })
  m4 ← log_info "Interrupts enabled.\n" (record m3 { cpu = sti m3.cpu })
  log_info "SSE enabled.\n" (record m4 { cpu = init_sse m4.cpu })

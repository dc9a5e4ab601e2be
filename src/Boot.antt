-- ===== src/Boot.antt =====
-- arch/x86_64/boot.c and kernel/kernel.c: from the loader's answers to the shell.
-- The proofs are in the modules below.
pub mod Guards
pub mod Running
pub mod Sample
mod Tests
use feudos.Prelude.{ℕ, ◌+◌, not, Option, none, some, List, [], ◌∷◌, ◌==◌, if◌then◌else◌, ◌>>=◌}
use feudos.Str.{c_string}
use feudos.Io.{Trace, Device}
use feudos.Vga.{Screen, Framebuffer, vga_init, vga_clear_screen}
use feudos.Printf.{text}
use feudos.Keyboard
use feudos.Serial.{serial_init}
use feudos.Cpu.{Cpu}
use feudos.Paging
use feudos.Paging.{Memory, u64, map_page}
use feudos.Log.{none_level, klog}
use feudos.Ksh.{def_text_col}
use feudos.Idt.{Kernel, IdtEntry}
use feudos.Init.{Image, Machine, arch_init}

-- The kernel's image and the machine as the loader leaves them: the glyphs, the static tables, the
-- address of `pt_scratch`, the processor with its register cr3, the accesses to the ports and the
-- physical memory.
pub record Loaded : Type 0 where
  pub font : ℕ → ℕ → ℕ
  pub image : Image
  pub gdt : List ℕ
  pub idt : List IdtEntry
  pub pt_scratch : ℕ
  pub cpu : Cpu
  pub cr3 : ℕ
  pub ports : Trace
  pub memory : Memory

pub record KernelAddress : Type 0 where
  pub physical_base : ℕ
  pub virtual_base : ℕ

-- The loader's answers, `none` where a response is NULL. `revision_left` is the third word of
-- `limine_base_revision`, which the loader sets to 0 if it supports the revision. The `response` of
-- the framebuffers holds their count and their pointers.
pub record Requests : Type 0 where
  pub revision_left : ℕ
  pub hhdm : Option ℕ
  pub kaddr : Option KernelAddress
  pub framebuffers : Option (List Framebuffer)

-- The message that `kernel_main` logs first.
unfoldable pub log_banner : Screen → Option Screen
log_banner =
    klog none_level (c_string "Booting up %s %s for %s ...\n")
      (text (c_string "FeudOS kernel") ∷ text (c_string "v0.0.7") ∷ text (c_string "x86_64") ∷ [])

-- The machine before `arch_init`: the static variables of keyboard.c and timer.c.
abbrev pub at_banner : Loaded → Screen → Machine
at_banner l t = record {
  cpu = l.cpu;
  gdt = l.gdt;
  idt = l.idt;
  kernel = record { screen = t; keyboard = Keyboard.init; ticks = 0; ports = l.ports };
}

-- `kernel_main` up to `ksh_run`, which does not return.
unfoldable pub kernel_main : Device → Framebuffer → Loaded → Option Machine
kernel_main dev g l = do
  s ← vga_clear_screen def_text_col (vga_init l.font g)
  t ← log_banner s
  arch_init l.image dev (at_banner l t)

-- `hcf` halts the machine for good; else it runs the shell.
pub data Boot : Type 0 where
  hung : Boot
  running : Machine → Memory → Boot

-- What `map_page` reads of the answers.
abbrev pub layout : Loaded → ℕ → KernelAddress → Paging.Boot
layout l hhdm k = record {
  hhdm_offset = hhdm;
  kernel_phys_base = k.physical_base;
  kernel_virt_base = k.virtual_base;
  pt_scratch = l.pt_scratch;
  cr3 = l.cr3;
}

-- `_start` behind the guards.
unfoldable pub start_on : Device → Loaded → ℕ → KernelAddress → Framebuffer → Option Boot
start_on dev l hhdm k g = do
  memory ← map_page (layout l hhdm k) (u64 (hhdm + 0xB8000)) 0xB8000 l.memory
  m ← kernel_main dev g (record l { ports = serial_init l.ports })
  some (running m memory)

unfoldable pub guarded :
    Device → Loaded → Option ℕ → Option KernelAddress → Option (List Framebuffer) → Option Boot
guarded dev l none kaddr fbs = some hung
guarded dev l (some hhdm) none fbs = some hung
guarded dev l (some hhdm) (some k) none = some hung
guarded dev l (some hhdm) (some k) (some []) = some hung
guarded dev l (some hhdm) (some k) (some (g ∷ gs)) = start_on dev l hhdm k g

-- `_start`
unfoldable pub start : Device → Loaded → Requests → Option Boot
start dev l r =
    let rest = guarded dev l r.hhdm r.kaddr r.framebuffers in
    if not (r.revision_left == 0) then some hung else rest

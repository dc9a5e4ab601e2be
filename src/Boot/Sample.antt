-- ===== src/Boot/Sample.antt =====
-- A machine as the loader leaves it, at which the theorems on arch/x86_64/boot.c are applied.
use feudos.Prelude.{ℕ, ◌+◌, ◌*◌, ◌%◌, refl, [], ◌∷◌, List, replicate, length-replicate, arith}
use feudos.Cpu.Sample.{loaded}
use feudos.Vga.Sample.{bar}
use feudos.Idt.{gate}
use feudos.Paging.Walk.{Tables, missing, upper}
use feudos.Paging.Table
use feudos.Boot.{Loaded, KernelAddress, layout}
use feudos.Boot.Running.{IsFit}

abbrev pub left : Loaded
left = record {
  font = bar;
  image = record { gdt_at = 0x9000; idt_at = 0xA000; isr = λ k. 0x100000 + 16 * (k % 48) };
  gdt = 0 ∷ 0 ∷ 0 ∷ [];
  idt = replicate 256 (gate 0);
  pt_scratch = 0xFFFFFFFF80005000;
  cpu = loaded;
  cr3 = 0x1000;
  ports = [];
  memory = record { words = λ x. 0; used = 0 };
}

pub left-IsFit : IsFit left
left-IsFit = record {
  descriptors = refl;
  gates = length-replicate 256 (gate 0);
  routines = λ k. omega arith;
  cr0_small = omega arith;
}

abbrev pub address : KernelAddress
address = record { physical_base = 0x200000; virtual_base = 0xFFFFFFFF80000000 }

abbrev pub hhdm : ℕ
hhdm = 0xFFFF800000000000

pub layout-Loaded : Table.Loaded (layout left hhdm address) 0x205
layout-Loaded = record {
  hhdm_small = omega arith;
  in_image = omega arith;
  no_wrap = omega arith;
  scratch_phys = omega arith;
  first_small = omega arith;
}

abbrev pub tables : List ℕ
tables = 1 ∷ 0x205 ∷ 0x206 ∷ 0x207 ∷ []

pub left-Tables : Tables (λ x. 0) 0x205 0x209 1 (upper 0xFFFF8000000B8000) tables
left-Tables = missing refl (omega arith)

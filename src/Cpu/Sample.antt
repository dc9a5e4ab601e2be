-- ===== src/Cpu/Sample.antt =====
-- A processor as the loader might leave it.
use feudos.Prelude.{false}
use feudos.Cpu.{Cpu}

abbrev pub loaded : Cpu
loaded = record {
  gdtr = record { limit = 0x37; base = 0x7000 };
  idtr = record { limit = 0; base = 0 };
  cs = 0x28;
  ds = 0x30;
  es = 0x30;
  fs = 0x30;
  gs = 0x30;
  ss = 0x30;
  cr0 = 0x80010015;
  cr4 = 0x20;
  interrupts = false;
  fpu_reset = false;
}

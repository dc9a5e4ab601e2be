-- ===== src/Gdt.antt =====
-- arch/x86_64/gdt.c and arch/x86_64/gdt_flush.s: the segments.
-- The proofs are in the modules below.
pub mod Segments
mod Tests
use Prim.Native.Nat.{bit_or}
use feudos.Prelude.{ℕ, ◌*◌, ◌-◌, ◌^◌, Option, some, List, length, ◌>>=◌, store}
use feudos.Cpu.{Cpu, TablePtr}

-- gdt_flush.s: `lgdt`, the far return to selector 0x08, and the moves of 0x10.
unfoldable pub gdt_flush : TablePtr → Cpu → Cpu
gdt_flush p c = record c {
  gdtr = p;
  cs = 0x08;
  ds = 0x10;
  es = 0x10;
  fs = 0x10;
  gs = 0x10;
  ss = 0x10;
}

-- 1ULL << n
abbrev pub bit_at : ℕ → ℕ
bit_at n = 2 ^ n

-- The descriptors are the 64-bit words of `gdt`, which lies at the address `base`.
unfoldable pub gdt_init : ℕ → List ℕ → Cpu → Option (List ℕ × Cpu)
gdt_init base gdt c = do
  g1 ← store gdt 0 0
  g2 ← store g1 1 (bit_or (bit_or (bit_or (bit_at 43) (bit_at 44)) (bit_at 47)) (bit_at 53))
  g3 ← store g2 2 (bit_or (bit_or (bit_at 41) (bit_at 44)) (bit_at 47))
  some (g3, gdt_flush (record { limit = 8 * length gdt - 1; base = base }) c)

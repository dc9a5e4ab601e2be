-- ===== src/Sse.antt =====
-- arch/x86_64/sse.c: the control registers' bits for the SSE instructions.
-- The proof is in the module below.
pub mod Enabled
mod Tests
use Prim.Native.Nat.{bit_and, bit_or}
use feudos.Prelude.{ℕ, ◌-◌, ◌^◌}
use feudos.Cpu.{Cpu, fninit}

-- Bit 2 of cr0 is EM, bit 1 MP; bit 9 of cr4 is OSFXSR, bit 10 OSXMMEXCPT.
unfoldable pub init_sse : Cpu → Cpu
init_sse c =
    let cr0 = bit_or (bit_and c.cr0 (2 ^ 64 - 1 - 2 ^ 2)) (2 ^ 1) in
    let cr4 = bit_or (bit_or c.cr4 (2 ^ 9)) (2 ^ 10) in fninit (record c { cr0 = cr0; cr4 = cr4 })

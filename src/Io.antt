-- ===== src/Io.antt =====
-- include/arch/x86_64/io.h: the port instructions, as a trace of what the kernel wrote and read.
use feudos.Prelude.{ℕ, ◌%◌, ◌^◌, List, ◌∷◌}

-- An access to a port, with the byte written or read.
pub data Access : Type 0 where
  wrote : ℕ → ℕ → Access
  got : ℕ → ℕ → Access

-- The accesses so far, the last one first.
abbrev pub Trace : Type 0
Trace = List Access

-- What the hardware answers to the read of a port, after the accesses so far.
abbrev pub Device : Type 0
Device = Trace → ℕ → ℕ

abbrev pub byte : ℕ → ℕ
byte n = n % 2 ^ 8

unfoldable pub outb : ℕ → ℕ → Trace → Trace
outb port val tr = wrote port (byte val) ∷ tr

unfoldable pub inb : Device → ℕ → Trace → ℕ × Trace
inb dev port tr = let ret = byte (dev tr port) in (ret, got port ret ∷ tr)

unfoldable pub io_wait : Trace → Trace
unfolding outb
io_wait tr = outb 0x80 0 tr

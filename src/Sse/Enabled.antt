-- ===== src/Sse/Enabled.antt =====
-- arch/x86_64/sse.c: the bits that are set, and the ones that are kept.
use Prim.Native.Nat.{bit_and, bit_or}
use feudos.Prelude.{ℕ, ◌+◌, ◌*◌, ◌-◌, ◌/◌, ◌%◌, ◌^◌, ◌<◌, ◌≡◌, refl, true, arith}
use feudos.Prelude.Bits.{bit_or-pow, bit_and-all_but}
use feudos.Cpu.{Cpu}
use feudos.Sse.{init_sse}

-- The processor with SSE enabled, from these values of the two registers: EM is clear and MP set,
-- in cr4 both of the bits 9 and 10 are set, and all other bits are as they were.
pub record IsEnabled (cr0 cr4 : ℕ) (d : Cpu) : Type 0 where
  pub cr0_bits : d.cr0 / 2 % 4 ≡ 1
  pub cr0_low : d.cr0 % 2 ≡ cr0 % 2
  pub cr0_high : d.cr0 / 2 ^ 3 ≡ cr0 / 2 ^ 3
  pub cr4_bits : d.cr4 / 2 ^ 9 % 4 ≡ 3
  pub cr4_low : d.cr4 % 2 ^ 9 ≡ cr4 % 2 ^ 9
  pub cr4_high : d.cr4 / 2 ^ 11 ≡ cr4 / 2 ^ 11
  pub fpu : d.fpu_reset ≡ true

cr0_lem :
    (x : ℕ)
    → x < 2 ^ 64
    → let r = bit_or (bit_and x (2 ^ 64 - 1 - 2 ^ 2)) (2 ^ 1) in
      (r / 2 % 4 ≡ 1) × (r % 2 ≡ x % 2) × (r / 2 ^ 3 ≡ x / 2 ^ 3)
cr0_lem x h =
    let y = bit_and x (2 ^ 64 - 1 - 2 ^ 2) in
    let cleared : y + x / 2 ^ 2 % 2 * 2 ^ 2 ≡ x = bit_and-all_but 2 64 x (omega arith) h in
    rw (bit_or-pow 1 y) (ground (arith, cleared))

cr4_lem :
    (x : ℕ)
    → let r = bit_or (bit_or x (2 ^ 9)) (2 ^ 10) in
      (r / 2 ^ 9 % 4 ≡ 3) × (r % 2 ^ 9 ≡ x % 2 ^ 9) × (r / 2 ^ 11 ≡ x / 2 ^ 11)
cr4_lem x = rw (bit_or-pow 9 x, bit_or-pow 10) (ground arith)

-- On a register cr0 of 64 bits `init_sse` enables SSE: it clears EM, sets MP and both bits of
-- cr4, resets the floating-point unit, and keeps every other bit and register.
pub init_sse-IsEnabled :
    (c : Cpu)
    → c.cr0 < 2 ^ 64
    → let d = init_sse c in
      IsEnabled c.cr0 c.cr4 d × (d ≡ record c { cr0 = d.cr0; cr4 = d.cr4; fpu_reset = d.fpu_reset })
unfolding init_sse
init_sse-IsEnabled c h =
    let (bits0, low0, high0) = cr0_lem c.cr0 h in
    let (bits4, low4, high4) = cr4_lem c.cr4 in
    (
      record {
        cr0_bits = bits0;
        cr0_low = low0;
        cr0_high = high0;
        cr4_bits = bits4;
        cr4_low = low4;
        cr4_high = high4;
        fpu = refl;
      },
      refl,
    )

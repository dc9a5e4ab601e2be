-- ===== src/Pic/Pit.antt =====
-- The timer chip as `pit_init` of arch/x86_64/pic.c drives it: its counter 0, which makes the timer's
-- interrupts.
use Prim.Native.Nat.{bit_and}
use feudos.Prelude.{
  ℕ, ◌+◌, ◌*◌, ◌/◌, ◌%◌, ◌^◌, ◌<◌, ◌≤◌, ◌≡◌, refl, ap, ◌∙◌, Bool, true, false, [], ◌∷◌, ◌==◌,
  if◌then◌else◌, arith, Yields, lt→ltb,
}
use feudos.Prelude.Bits.{bit_and-low}
use native.Mathlib.Nat.{
  div-lt_iff_lt-mul, le-div_iff_mul-le, div-mul-le_self, add-mul, lt-div-mul-add,
}
use feudos.Io.{Access, wrote, got, Trace, byte, outb}
use feudos.Pic.{pit_init}

-- The halves of the counter's start, and the one that a byte on its port sets next.
pub record Pit : Type 0 where
  pub mode : ℕ
  pub decimal : Bool
  pub low : ℕ
  pub high : ℕ
  pub high_next : Bool

-- Bits 6 and 7 of a control byte name the counter, 4 and 5 the halves that are set, 1 to 3 the mode.
-- Only a control byte that sets both halves of counter 0 is followed here.
abbrev pub control : ℕ → Pit → Pit
control v p =
    if v / 2 ^ 4 == 3
    then record p { mode = v / 2 % 8; decimal = v % 2 == 1; high_next = false }
    else p

abbrev pub half_byte : ℕ → Pit → Pit
half_byte v p =
    if p.high_next
    then record p { high = v; high_next = false }
    else record p { low = v; high_next = true }

abbrev pub pit_step : Access → Pit → Pit
pit_step (got port v) p = p
pit_step (wrote port v) p =
    if port == 0x43 then control v p else if port == 0x40 then half_byte v p else p

-- The counter after the accesses of a trace, from its state at power on.
abbrev pub pit : Pit → Trace → Pit
pit start [] = start
pit start (a ∷ tr) = pit_step a (pit start tr)

-- The cycles between two interrupts.
abbrev pub reload : Pit → ℕ
reload p = let n = p.high * 2 ^ 8 + p.low in if n == 0 then 2 ^ 16 else n

-- A binary square wave, which interrupts `freq` times in 1193180 cycles, to within a cycle each.
pub record Beats (freq : ℕ) (p : Pit) : Type 0 where
  pub square : p.mode ≡ 3
  pub binary : p.decimal ≡ false
  pub complete : p.high_next ≡ false
  pub fast : reload p * freq ≤ 1193180
  pub slow : 1193180 < (reload p + 1) * freq

-- The counter after the three bytes of `pit_init`, whatever it was.
abbrev pub started : ℕ → Pit
started divisor = record {
  mode = 3;
  decimal = false;
  low = divisor % 2 ^ 8;
  high = divisor / 2 ^ 8 % 2 ^ 8;
  high_next = false;
}

pub started-Beats : (freq : ℕ) → 19 ≤ freq → freq ≤ 1193180 → Beats freq (started (1193180 / freq))
started-Beats freq lo hi =
    let d = 1193180 / freq in
    let below : d < 2 ^ 16 =
      (div-lt_iff_lt-mul {k = freq} {x = 1193180} {y = 2 ^ 16} (omega arith)).1 (omega arith) in
    let above : 1 ≤ d =
      (le-div_iff_mul-le {k = freq} {x = 1} {y = 1193180} (omega arith)).1 (omega arith) in
    let start : reload (started d) ≡ d = ground arith in
    record {
      square = refl;
      binary = refl;
      complete = refl;
      fast = rw start (div-mul-le_self 1193180 freq);
      slow =
          rw start (
            omega (arith, lt-div-mul-add {a = 1193180} {b = freq} (omega arith), add-mul d 1 freq));
    }

-- For each frequency from 19 to 1193180 `pit_init` does not fault and leaves counter 0 of the timer
-- chip, whatever was written to it before, as a binary square wave that interrupts as often in
-- 1193180 cycles, to within a cycle for each interrupt.
pub pit_init-Beats :
    (start : Pit) (freq : ℕ) (tr : Trace)
    → 19 ≤ freq
    → freq ≤ 1193180
    → Yields (λ t. Beats freq (pit start t)) (pit_init freq tr)
unfolding pit_init outb
pit_init-Beats start freq tr lo hi =
    let d = 1193180 / freq in
    let low : byte (bit_and d 0xFF) ≡ d % 2 ^ 8 = ap byte (bit_and-low 8 d) ∙ omega arith in
    let high : byte (bit_and (d / 2 ^ 8) 0xFF) ≡ d / 2 ^ 8 % 2 ^ 8 =
      ap byte (bit_and-low 8 (d / 2 ^ 8)) ∙ omega arith in
    rw (lt→ltb 0 freq (omega arith)) (_, refl, rw (low, high) (started-Beats freq lo hi))

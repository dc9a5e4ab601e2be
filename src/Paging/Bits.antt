-- ===== src/Paging/Bits.antt =====
-- The bit operations of arch/x86_64/paging.c as arithmetic: the present bit, the flags of a new
-- entry, and the mask of a page address.
use Prim.Native.Nat.{bit_and, bit_or, bit_and-bitwise, bit_or-bitwise}
use native.Mathlib.Nat.{pow-suc}
use feudos.Prelude.Bits.{
  and_rounds, or_rounds, and_round, or_round, and_rounds-zero, or_rounds-zero, all_ones,
}
use feudos.Prelude.{
  ℕ, zero, suc, ◌+◌, ◌-◌, ◌*◌, ◌/◌, ◌%◌, ◌^◌, ◌≤◌, ◌<◌, ◌≡◌, ◌∙◌, sym, ap, ap₂, arith,
}

-- w & 1
pub present_bit : (w : ℕ) → bit_and w 1 ≡ w % 2
present_bit w = bit_and-bitwise w 1 ∙ go w w (omega arith)
  where
    go : (k x : ℕ) → x ≤ k → and_rounds k x 1 ≡ x % 2
    go zero x h = omega arith
    go (suc k) x h = omega (arith, and_round k x 1, and_rounds-zero k (x / 2))

-- p | 3, for the address of a page
pub flags_set : (p : ℕ) → p % 4 ≡ 0 → bit_or p 3 ≡ p + 3
flags_set p h = bit_or-bitwise p 3 ∙ three p p (omega arith) h
  where
    one : (k x : ℕ) → x ≤ k → x % 2 ≡ 0 → or_rounds k x 1 ≡ x + 1
    one zero x le e = omega arith
    one (suc k) x le e = omega (arith, or_round k x 1, or_rounds-zero k (x / 2) (omega arith))

    three : (k x : ℕ) → x ≤ k → x % 4 ≡ 0 → or_rounds k x 3 ≡ x + 3
    three zero x le e = omega arith
    three (suc k) x le e = omega (arith, or_round k x 3, one k (x / 2) (omega arith) (omega arith))

high_ones :
    (n k q r : ℕ)
    → q < 2 ^ 52
    → r < 2 ^ n
    → q * 2 ^ n + r ≤ k
    → and_rounds k (q * 2 ^ n + r) ((2 ^ 52 - 1) * 2 ^ n) ≡ q * 2 ^ n
high_ones zero k q r hq hr le =
    let e : q * 2 ^ 0 + r ≡ q = omega arith in rw e (all_ones 52 k q hq (omega arith) ∙ omega arith)
high_ones (suc n) zero q r hq hr le = omega arith
high_ones (suc n) (suc k) q r hq hr le =
    let two = pow-suc 2 n in
    let mask = (2 ^ 52 - 1) * 2 ^ suc n in
    let x = q * 2 ^ suc n + r in
    let twice : q * 2 ^ suc n ≡ q * 2 ^ n * 2 = omega (arith, ap (λ (t : ℕ). q * t) two) in
    let half : mask / 2 ≡ (2 ^ 52 - 1) * 2 ^ n = omega (arith, two) in
    let even : mask % 2 ≡ 0 = omega (arith, two) in
    let rest : x / 2 ≡ q * 2 ^ n + r / 2 = omega (arith, twice) in
    omega (
      arith,
      twice,
      even,
      and_round k x mask,
      ap₂ (and_rounds k) rest half,
      high_ones n k q (r / 2) hq (omega (arith, two)) (omega (arith, twice)),
    )

-- w & ~0xFFF
pub page_of : (w : ℕ) → w < 2 ^ 64 → bit_and w (2 ^ 64 - 1 - 0xFFF) ≡ w / 4096 * 4096
page_of w h =
    bit_and-bitwise w (2 ^ 64 - 1 - 0xFFF)
    ∙ ap (λ x. and_rounds w x (2 ^ 64 - 1 - 0xFFF)) (sym split)
    ∙ high_ones 12 w (w / 4096) (w % 4096) (omega arith) (omega arith) (omega arith)
  where
    split : w / 4096 * 2 ^ 12 + w % 4096 ≡ w
    split = omega arith

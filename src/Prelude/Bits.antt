-- ===== src/Prelude/Bits.antt =====
-- The native bit operations as arithmetic, by rounds on the lowest bits.
use Prim.Native.Nat.{
  ℕ, zero, suc, ◌+◌, ◌-◌, ◌*◌, ◌/◌, ◌%◌, ◌^◌, ◌≤◌, ◌<◌, min, max, digits, bit_and, bit_or,
  bit_and-bitwise, bit_or-bitwise,
}
use mathlib.Core.Path.{◌≡◌, ◌∙◌, refl, sym, ap, ap₂}
use native.Mathlib.Omega.{arith}
use mathlib.Core.Logic.{inl, inr}
use feudos.Prelude.Tests.{◌==◌, if◌then◌else◌, Bool-cases, ==_iff}
use native.Mathlib.Nat.{
  pow-suc, pow-le-pow_right, mul_comm, mul_assoc, div-div-eq-div-mul, zero-div, zero-mod,
  div-add-mod',
}

-- What the native operations compute, with the rounds that are left.
abbrev pub and_rounds : ℕ → ℕ → ℕ → ℕ
and_rounds = digits (λ b. 0) min

abbrev pub or_rounds : ℕ → ℕ → ℕ → ℕ
or_rounds = digits (λ b. b) max

-- One round, on the lowest bits.
pub and_round :
    (k x y : ℕ) → and_rounds (suc k) x y ≡ and_rounds k (x / 2) (y / 2) * 2 + min (x % 2) (y % 2)
and_round zero zero y = omega arith
and_round (suc k) zero y = omega arith
and_round k (suc x) y = refl

pub or_round :
    (k x y : ℕ) → or_rounds (suc k) x y ≡ or_rounds k (x / 2) (y / 2) * 2 + max (x % 2) (y % 2)
or_round zero zero y = omega arith
or_round (suc k) zero y = omega arith
or_round k (suc x) y = refl

pub and_rounds-zero : (k x : ℕ) → and_rounds k x 0 ≡ 0
and_rounds-zero zero x = refl
and_rounds-zero (suc k) x = omega (arith, and_round k x 0, and_rounds-zero k (x / 2))

pub or_rounds-zero : (k x : ℕ) → x ≤ k → or_rounds k x 0 ≡ x
or_rounds-zero zero x h = omega arith
or_rounds-zero (suc k) x h = omega (arith, or_round k x 0, or_rounds-zero k (x / 2) (omega arith))

-- A number under a mask of ones that covers it.
pub all_ones : (n k x : ℕ) → x < 2 ^ n → x ≤ k → and_rounds k x (2 ^ n - 1) ≡ x
all_ones zero k x lt le = omega (arith, and_rounds-zero k x)
all_ones (suc n) zero x lt le = omega arith
all_ones (suc n) (suc k) x lt le =
    let two = pow-suc 2 n in
    let half : (2 ^ suc n - 1) / 2 ≡ 2 ^ n - 1 = omega (arith, two) in
    let odd : (2 ^ suc n - 1) % 2 ≡ 1 = omega (arith, two) in
    omega (
      arith,
      odd,
      and_round k x (2 ^ suc n - 1),
      ap (and_rounds k (x / 2)) half,
      all_ones n k (x / 2) (omega (arith, two)) (omega arith),
    )

-- The bit n of a number, and of its half.
abbrev pub bit : ℕ → ℕ → ℕ
bit n x = x / 2 ^ n % 2

bit-suc : (n x : ℕ) → bit (suc n) x ≡ bit n (x / 2)
bit-suc n x =
    ap (λ d. d % 2)
      (ap (λ p. x / p) (pow-suc 2 n ∙ mul_comm _ _) ∙ sym (div-div-eq-div-mul x 2 (2 ^ n)))

bit-zero : (n : ℕ) → bit n 0 ≡ 0
bit-zero n = ap (λ q. q % 2) (zero-div (2 ^ n))

-- Half of 2^(n+1), which is even.
half-pow : (n : ℕ) → 2 ^ suc n / 2 ≡ 2 ^ n
half-pow n = omega (arith, pow-suc 2 n)

even-pow : (n : ℕ) → 2 ^ suc n % 2 ≡ 0
even-pow n = omega (arith, pow-suc 2 n)

-- x | 2^n
or_rounds-pow_one : (n k x : ℕ) → x ≤ k → bit n x ≡ 1 → or_rounds k x (2 ^ n) ≡ x
or_rounds-pow_one zero zero x h e = omega arith
or_rounds-pow_one zero (suc k) x h e =
    omega (arith, or_round k x 1, or_rounds-zero k (x / 2) (omega arith))
or_rounds-pow_one (suc n) zero x h e =
    let z : x ≡ 0 = omega arith in
    let b : bit (suc n) x ≡ 0 = ap (bit (suc n)) z ∙ bit-zero (suc n) in omega (arith, b, e)
or_rounds-pow_one (suc n) (suc k) x h e = omega (
  arith,
  even-pow n,
  or_round k x (2 ^ suc n),
  ap (or_rounds k (x / 2)) (half-pow n),
  or_rounds-pow_one n k (x / 2) (omega arith) (sym (bit-suc n x) ∙ e),
)

or_rounds-pow_zero : (n k x : ℕ) → x ≤ k → bit n x ≡ 0 → or_rounds k x (2 ^ n) ≡ x + 2 ^ n
or_rounds-pow_zero n zero x h e = let z : x ≡ 0 = omega arith in rw z (omega arith)
or_rounds-pow_zero zero (suc k) x h e =
    omega (arith, or_round k x 1, or_rounds-zero k (x / 2) (omega arith))
or_rounds-pow_zero (suc n) (suc k) x h e = omega (
  arith,
  pow-suc 2 n,
  or_round k x (2 ^ suc n),
  ap (or_rounds k (x / 2)) (half-pow n),
  or_rounds-pow_zero n k (x / 2) (omega arith) (sym (bit-suc n x) ∙ e),
)

-- The mask with the bit n clear.
abbrev pub all_but : ℕ → ℕ → ℕ
all_but w n = 2 ^ w - 1 - 2 ^ n

-- x & ~2^n
and_rounds-all_but :
    (n w k x : ℕ) → n < w → x < 2 ^ w → x ≤ k → and_rounds k x (all_but w n) + bit n x * 2 ^ n ≡ x
and_rounds-all_but n w zero x hn hw h =
    let z : x ≡ 0 = omega arith in rw z (omega (arith, ap (λ b. b * 2 ^ n) (bit-zero n)))
and_rounds-all_but n zero (suc k) x hn hw h = absurd (omega arith)
and_rounds-all_but zero (suc w) (suc k) x hn hw h =
    let two = pow-suc 2 w in
    let half : all_but (suc w) 0 / 2 ≡ 2 ^ w - 1 = omega (arith, two) in
    omega (
      arith,
      two,
      and_round k x (all_but (suc w) 0),
      ap (and_rounds k (x / 2)) half,
      all_ones w k (x / 2) (omega (arith, two)) (omega arith),
    )
and_rounds-all_but (suc n) (suc w) (suc k) x hn hw h =
    let two = pow-suc 2 w in
    let half : all_but (suc w) (suc n) / 2 ≡ all_but w n = omega (arith, two, pow-suc 2 n) in
    let odd : all_but (suc w) (suc n) % 2 ≡ 1 = omega (
      arith,
      two,
      pow-suc 2 n,
      pow-le-pow_right {n = 2} (omega arith) {i = suc n} {j = w} (omega arith),
    ) in
    let place : bit (suc n) x * 2 ^ suc n ≡ bit n (x / 2) * 2 ^ n * 2 =
      ap₂ ◌*◌ (bit-suc n x) (pow-suc 2 n) ∙ sym (mul_assoc _ _ _) in
    omega (
      arith,
      odd,
      place,
      and_round k x (all_but (suc w) (suc n)),
      ap (and_rounds k (x / 2)) half,
      and_rounds-all_but n w k (x / 2) (omega arith) (omega (arith, two)) (omega arith),
    )

-- The same of the native operations.
pub bit_or-pow : (n x : ℕ) → bit_or x (2 ^ n) ≡ (if bit n x == 1 then x else x + 2 ^ n)
bit_or-pow n x = bit_or-bitwise x (2 ^ n) ∙ elim (Bool-cases (bit n x == 1)) [
  | inl e ↦ rw e (or_rounds-pow_one n x x (omega arith) ((==_iff _ _).0 e))
  | inr e ↦ rw e (or_rounds-pow_zero n x x (omega arith) (ground arith))
]

pub bit_and-all_but :
    (n w x : ℕ) → n < w → x < 2 ^ w → bit_and x (all_but w n) + bit n x * 2 ^ n ≡ x
bit_and-all_but n w x hn h =
    ap (λ r. r + bit n x * 2 ^ n) (bit_and-bitwise x (all_but w n))
    ∙ and_rounds-all_but n w x x hn h (omega arith)

-- A remainder by its lowest bit and the others.
mod-double : (x n : ℕ) → x % (2 * n) ≡ x / 2 % n * 2 + x % 2
mod-double x n =
    let q : x / 2 / n ≡ x / (2 * n) = div-div-eq-div-mul x 2 n in
    let whole : x / (2 * n) * (2 * n) ≡ 2 * (x / 2 / n * n) = rw q (
      sym (mul_assoc (x / (2 * n)) 2 n)
      ∙ ap (λ a. a * n) (mul_comm (x / (2 * n)) 2)
      ∙ mul_assoc 2 (x / (2 * n)) n) in
    omega (arith, whole, div-add-mod' x (2 * n), div-add-mod' (x / 2) n)

pow_two-pos : (n : ℕ) → 1 ≤ 2 ^ n
pow_two-pos zero = omega arith
pow_two-pos (suc n) = omega (arith, pow-suc 2 n, pow_two-pos n)

-- The lowest bits of a number.
low_ones : (n k x : ℕ) → x ≤ k → and_rounds k x (2 ^ n - 1) ≡ x % 2 ^ n
low_ones zero k x le = omega (arith, and_rounds-zero k x)
low_ones (suc n) zero x le = let none : x ≡ 0 = omega arith in rw (none, zero-mod (2 ^ suc n)) refl
low_ones (suc n) (suc k) x le =
    let two : 2 ^ suc n ≡ 2 * 2 ^ n = omega (arith, pow-suc 2 n) in
    let half : (2 ^ suc n - 1) / 2 ≡ 2 ^ n - 1 = omega (arith, two, pow_two-pos n) in
    let odd : (2 ^ suc n - 1) % 2 ≡ 1 = omega (arith, two, pow_two-pos n) in
    omega (
      arith,
      odd,
      and_round k x (2 ^ suc n - 1),
      ap (and_rounds k (x / 2)) half,
      low_ones n k (x / 2) (omega arith),
      ap (λ m. x % m) two,
      mod-double x (2 ^ n),
    )

pub bit_and-low : (n x : ℕ) → bit_and x (2 ^ n - 1) ≡ x % 2 ^ n
bit_and-low n x = bit_and-bitwise x (2 ^ n - 1) ∙ low_ones n x x (omega arith)

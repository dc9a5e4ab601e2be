-- ===== src/Pic/Bits.antt =====
-- The bits of a byte under the operations of arch/x86_64/pic.c, by tables over all bytes.
use Prim.Native.Nat.{bit_and, bit_or}
use feudos.Prelude.{
  Bool-cases, inl, inr, if◌then◌else◌, ℕ, zero, suc, ◌-◌, ◌^◌, ◌<◌, ◌≡◌, refl, Bool, true, false,
  not, ◌&&◌, ◌||◌, arith, ◌==◌,
}
use feudos.Io.{byte}
use feudos.Vga.{bit_set}

-- A test of the first n numbers, from the last one down.
holds_to : (ℕ → Bool) → ℕ → Bool
holds_to test zero = true
holds_to test (suc k) = if test k then holds_to test k else false

holds_to-at : (test : ℕ → Bool) (k i : ℕ) → holds_to test k ≡ true → i < k → test i ≡ true
unfolding holds_to
holds_to-at test zero i run small = absurd (omega arith)
holds_to-at test (suc k) i run small = elim (Bool-cases (test k)) [
  | inl pass ↦ elim (Bool-cases (i == k)) [
    | inl same ↦ let e : i ≡ k = ground arith in rw e pass
    | inr other ↦ holds_to-at test k i (rw pass at run) (ground arith)
  ]
  | inr fail ↦ let e : false ≡ true = rw fail at run in cc e
]

abbrev agree : Bool → Bool → Bool
agree true b = b
agree false b = not b

agree_eq : (a b : Bool) → agree a b ≡ true → a ≡ b
agree_eq true true h = refl
agree_eq true false h = cc
agree_eq false true h = cc
agree_eq false false h = refl

-- A test of a byte and two of its bits, over all of them.
abbrev all_bits : (ℕ → ℕ → ℕ → Bool) → Bool
unfolding holds_to
all_bits p = holds_to (λ v. holds_to (λ l. holds_to (p v l) 8) 8) 256

all_bits_sound :
    (p : ℕ → ℕ → ℕ → Bool) (v l i : ℕ)
    → all_bits p ≡ true
    → v < 256
    → l < 8
    → i < 8
    → p v l i ≡ true
unfolding all_bits
all_bits_sound p v l i h hv hl hi =
    let at_byte = holds_to-at (λ x. holds_to (λ l. holds_to (p x l) 8) 8) 256 v h hv in
    let at_line = holds_to-at (λ x. holds_to (p v x) 8) 8 l at_byte hl in
    holds_to-at (p v l) 8 i at_line hi

abbrev set_test : ℕ → ℕ → ℕ → Bool
set_test v l i = agree (bit_set (byte (bit_or v (2 ^ l))) i) (i == l || bit_set v i)

abbrev clear_test : ℕ → ℕ → ℕ → Bool
clear_test v l i =
    agree (bit_set (byte (bit_and v (2 ^ 32 - 1 - 2 ^ l))) i) (not (i == l) && bit_set v i)

set_table : all_bits set_test ≡ true
unfolding all_bits holds_to
set_table = refl

clear_table : all_bits clear_test ≡ true
unfolding all_bits holds_to
clear_table = refl

-- `v | (1 << l)` has bit l and those of v.
pub bit_set-or :
    (v l i : ℕ)
    → v < 256
    → l < 8
    → i < 8
    → bit_set (byte (bit_or v (2 ^ l))) i ≡ i == l || bit_set v i
bit_set-or v l i hv hl hi = agree_eq _ _ (all_bits_sound set_test v l i set_table hv hl hi)

-- `v & ~(1 << l)` has the bits of v but l.
pub bit_set-and_not :
    (v l i : ℕ)
    → v < 256
    → l < 8
    → i < 8
    → bit_set (byte (bit_and v (2 ^ 32 - 1 - 2 ^ l))) i ≡ not (i == l) && bit_set v i
bit_set-and_not v l i hv hl hi = agree_eq _ _ (all_bits_sound clear_test v l i clear_table hv hl hi)

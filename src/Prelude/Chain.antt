-- ===== src/Prelude/Chain.antt =====
-- Chains of steps that may fault: `none` is a fault, such as an access outside an array.
use Prim.Native.Nat.{ℕ, zero, suc, ◌+◌, ◌≤◌, ◌<◌}
use mathlib.Core.Path.{◌≡◌, refl}
use mathlib.Core.Bool.{Bool, true, false}
use mathlib.Core.Option.{Option, none, some}
use mathlib.Core.List.{List}
use native.Mathlib.Omega.{arith}
use feudos.Prelude.Tests.{ltb, if◌then◌else◌}
use feudos.Prelude.Lists.{length, set}

infixl 5 ◌>>=◌
abbrev pub ◌>>=◌ {ℓ κ} : {A : Type ℓ} {B : Type κ} → Option A → (A → Option B) → Option B
none >>= f = none
some a >>= f = f a

-- A step that checks a bound and faults outside it.
abbrev pub check {ℓ} : {A : Type ℓ} → Bool → Option A → Option A
check true m = m
check false m = none

-- `xs[i] = v`. A read `xs[i]` is `get_elem? xs i`.
abbrev pub store {ℓ} : {A : Type ℓ} → List A → ℕ → A → Option (List A)
store xs i v = check (ltb i (length xs)) (some (set xs i v))

-- for (k = i; k < i + n; k++) body(k)
unfoldable pub for_range {ℓ} : {S : Type ℓ} → ℕ → ℕ → (ℕ → S → Option S) → S → Option S
for_range zero i body s = some s
for_range (suc n) i body s = body i s >>= for_range n (suc i) body

-- Total correctness: the step does not fault, and its result satisfies `P`.
abbrev pub Yields {ℓ κ} : {S : Type ℓ} → (S → Type κ) → Option S → Type (ℓ ⊔ κ)
Yields {S = S} P m = (s : S) × (m ≡ some s) × P s

-- A step, and what runs on its result.
pub Yields-bind {ℓ κ μ ν} :
    {S : Type ℓ} {T : Type κ} {P : S → Type μ} {Q : T → Type ν} (m : Option S) (f : S → Option T)
    → Yields P m
    → ((s : S) → P s → Yields Q (f s))
    → Yields Q (m >>= f)
Yields-bind m f (s, e, p) next = let (t, e', q) = next s p in (t, rw e e', q)

pub Yields-mono {ℓ μ ν} :
    {S : Type ℓ} {P : S → Type μ} {Q : S → Type ν} (m : Option S)
    → Yields P m
    → ((s : S) → P s → Q s)
    → Yields Q m
Yields-mono m (s, e, p) weaken = (s, e, weaken s p)

-- The invariant of a counted loop, over the rounds that it makes. The end is a variable.
pub for_range_inv {ℓ κ} :
    {S : Type ℓ} (P : ℕ → S → Type κ) (body : ℕ → S → Option S) (n i j : ℕ)
    → i + n ≡ j
    → ((k : ℕ) (s : S) → i ≤ k → k < j → P k s → Yields (P (suc k)) (body k s))
    → (s : S) → P i s
    → Yields (P j) (for_range n i body s)
unfolding for_range
for_range_inv P body zero i j e keep s h = let e' : i ≡ j = omega arith in (s, refl, rw (← e') h)
for_range_inv P body (suc n) i j e keep s h =
    Yields-bind (body i s) (for_range n (suc i) body) (keep i s (omega arith) (omega arith) h)
      λ t p.
        for_range_inv P body n (suc i) j (omega arith) (λ k s' lo hi. keep k s' (omega arith) hi) t
          p

-- A check that passes.
pub Yields-check {ℓ κ} :
    {S : Type ℓ} {P : S → Type κ} (b : Bool) (m : Option S)
    → b ≡ true
    → Yields P m
    → Yields P (check b m)
Yields-check b m h (s, e, p) = (s, rw h e, p)

-- Two facts about one step.
pub Yields-and {ℓ κ μ} :
    {S : Type ℓ} {P : S → Type κ} {Q : S → Type μ} (m : Option S)
    → Yields P m
    → Yields Q m
    → Yields (λ s. P s × Q s) m
Yields-and none (s, e, p) (t, f, q) = cc
Yields-and {P = P} (some a) (s, e, p) (t, f, q) =
    let ea : a ≡ s = cc e in let fa : a ≡ t = cc f in (a, refl, (rw ea p, rw fa q))

-- A choice between two steps.
pub Yields-if {ℓ κ} :
    {S : Type ℓ} {P : S → Type κ} (b : Bool) (m n : Option S)
    → Yields P m
    → Yields P n
    → Yields P (if b then m else n)
Yields-if true m n p q = p
Yields-if false m n p q = q

pub bind_assoc {ℓ κ μ} :
    {A : Type ℓ} {B : Type κ} {C : Type μ} (m : Option A) (f : A → Option B) (g : B → Option C)
    → (m >>= f >>= g) ≡ (m >>= λ a. f a >>= g)
bind_assoc none f g = refl
bind_assoc (some a) f g = refl

-- Chains agree where their second parts do.
pub bind_cong {ℓ κ} :
    {A : Type ℓ} {B : Type κ} (m : Option A) (f g : A → Option B)
    → ((a : A) → f a ≡ g a)
    → (m >>= f) ≡ (m >>= g)
bind_cong none f g h = refl
bind_cong (some a) f g h = h a

-- Inversion of a chain that does not fault.
pub bind-eq-some {ℓ κ} :
    {A : Type ℓ} {B : Type κ} (m : Option A) (f : A → Option B) {b : B}
    → (m >>= f) ≡ some b
    → (a : A) × (m ≡ some a) × (f a ≡ some b)
bind-eq-some none f h = cc
bind-eq-some (some a) f h = (a, refl, h)

-- Chains agree where their second parts do after what the first yields.
pub bind_cong-Yields {ℓ κ μ} :
    {A : Type ℓ} {B : Type κ} {P : A → Type μ} (m : Option A) (f g : A → Option B)
    → Yields P m
    → ((a : A) → P a → f a ≡ g a)
    → (m >>= f) ≡ (m >>= g)
bind_cong-Yields m f g (a, e, p) h = rw e (h a p)

-- Two programs that branch on the same test, where what one returns determines the other.
pub if_case {ℓ κ} :
    {A : Type ℓ} {B : Type κ} {p : A} (q : B) (b : Bool) (m n : Option A) (m' n' : B)
    → (m ≡ some p → m' ≡ q)
    → (n ≡ some p → n' ≡ q)
    → (if b then m else n) ≡ some p
    → (if b then m' else n') ≡ q
if_case q true m n m' n' k l = k
if_case q false m n m' n' k l = l

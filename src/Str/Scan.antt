-- ===== src/Str/Scan.antt =====
-- `strfle` and `strfnl` of util/str.c on any NUL-terminated text: where they can point.
use feudos.Prelude.{
  ℕ, zero, suc, ◌+◌, ◌-◌, ◌≤◌, ◌<◌, ◌≡◌, refl, inl, inr, Bool, false, Bool-cases, Option, none,
  some, List, [], ◌∷◌, ◌||◌, ◌==◌, arith, get_elem?, set, drop, Yields, Yields-if, Yields-mono,
}
use feudos.Prelude.Int.{ℤ, pos, negsuc}
use feudos.Str.{strfle, strfle_loop, strfnl, strfnl_loop, before}
use feudos.Str.Compare.{c_text}

-- The byte n of the array is a NUL.
abbrev pub NulAt : ℕ → List ℕ → Type 0
NulAt n xs = get_elem? xs n ≡ some 0

pub c_text-NulAt : (xs : List ℕ) (n : ℕ) → NulAt n xs → (cs : List ℕ) × (c_text xs ≡ some cs)
unfolding c_text
c_text-NulAt [] n h = cc
c_text-NulAt (c ∷ xs) zero h = let e : c ≡ 0 = cc h in rw e ([], refl)
c_text-NulAt (c ∷ xs) (suc n) h = elim (Bool-cases (c == 0)) [
  | inl e ↦ rw e ([], refl)
  | inr e ↦ let (cs, f) = c_text-NulAt xs n h in rw (e, f) (c ∷ cs, refl)
]

pub NulAt-set : (xs : List ℕ) (n p : ℕ) → NulAt n xs → NulAt n (set xs p 0)
NulAt-set [] n p h = h
NulAt-set (c ∷ xs) zero zero h = refl
NulAt-set (c ∷ xs) zero (suc p) h = h
NulAt-set (c ∷ xs) (suc n) zero h = h
NulAt-set (c ∷ xs) (suc n) (suc p) h = NulAt-set xs n p h

pub NulAt-drop : (xs : List ℕ) (n j : ℕ) → j ≤ n → NulAt n xs → NulAt (n - j) (drop j xs)
NulAt-drop xs n zero le h = let e : n - 0 ≡ n = omega arith in rw e h
NulAt-drop [] n (suc j) le h = cc
NulAt-drop (c ∷ xs) zero (suc j) le h = absurd (omega arith)
NulAt-drop (c ∷ xs) (suc n) (suc j) le h =
    let e : suc n - suc j ≡ n - j = omega arith in rw e (NulAt-drop xs n j (omega arith) h)

-- A pointer to the text or NULL.
abbrev pub PointsIn : ℕ → Option ℕ → Type 0
PointsIn n none = Unit
PointsIn n (some j) = j ≤ n

-- The last byte of a lexeme, which may be the one before the text.
abbrev pub EndsIn : ℕ → ℤ → Type 0
EndsIn n (pos j) = j < n
EndsIn n (negsuc j) = j ≡ 0

strfnl_loop-PointsIn :
    (sep i : ℕ) (ended : Bool) (xs : List ℕ) (n : ℕ)
    → NulAt n xs
    → Yields (PointsIn (i + n)) (strfnl_loop sep i ended xs)
unfolding strfnl_loop
strfnl_loop-PointsIn sep i ended [] n h = cc
strfnl_loop-PointsIn sep i ended (c ∷ xs) zero h = let e : c ≡ 0 = cc h in rw e (none, refl, tt)
strfnl_loop-PointsIn sep i ended (c ∷ xs) (suc n) h =
    let rest = strfnl_loop sep (suc i) (c == sep || ended) xs in
    let e : suc i + n ≡ i + suc n = omega arith in
    let ih : Yields (PointsIn (i + suc n)) rest =
      rw (← e) (strfnl_loop-PointsIn sep (suc i) (c == sep || ended) xs n h) in
    Yields-if (c == 0) (some none) _ (none, refl, tt)
      (Yields-if (c == sep) rest _ ih
        (Yields-if ended (some (some i)) rest (some i, refl, omega arith) ih))

-- `strfnl` returns on every NUL-terminated text, NULL or a pointer into it.
pub strfnl-PointsIn : (xs : List ℕ) (sep n : ℕ) → NulAt n xs → Yields (PointsIn n) (strfnl xs sep)
unfolding strfnl
strfnl-PointsIn xs sep n h =
    let e : 0 + n ≡ n = omega arith in
    Yields-mono _ (strfnl_loop-PointsIn sep 0 false xs n h) λ o p. rw (← e) p

before-EndsIn : (i n : ℕ) → i ≤ n → EndsIn n (before i)
before-EndsIn zero n h = refl
before-EndsIn (suc i) n h = let e : suc i == 0 ≡ false = ground arith in rw e (omega (arith, h))

strfle_loop-EndsIn :
    (sep i : ℕ) (xs : List ℕ) (n : ℕ) → NulAt n xs → Yields (EndsIn (i + n)) (strfle_loop sep i xs)
unfolding strfle_loop
strfle_loop-EndsIn sep i [] n h = cc
strfle_loop-EndsIn sep i (c ∷ xs) zero h =
    let e : c ≡ 0 = cc h in rw e (before i, refl, before-EndsIn i (i + 0) (omega arith))
strfle_loop-EndsIn sep i (c ∷ xs) (suc n) h =
    let rest = strfle_loop sep (suc i) xs in
    let e : suc i + n ≡ i + suc n = omega arith in
    let at = before-EndsIn i (i + suc n) (omega arith) in
    Yields-if (c == 0) (some (before i)) _ (before i, refl, at)
      (Yields-if (c == sep) _ rest
        (Yields-if (i == 0) (some (pos 0)) _ (pos 0, refl, omega arith) (before i, refl, at))
        (rw (← e) (strfle_loop-EndsIn sep (suc i) xs n h)))

-- `strfle` returns on every NUL-terminated text, with a byte of it or the one before it.
pub strfle-EndsIn : (xs : List ℕ) (sep n : ℕ) → NulAt n xs → Yields (EndsIn n) (strfle xs sep)
unfolding strfle
strfle-EndsIn xs sep n h =
    let e : 0 + n ≡ n = omega arith in
    Yields-mono _ (strfle_loop-EndsIn sep 0 xs n h) λ z p. rw (← e) p

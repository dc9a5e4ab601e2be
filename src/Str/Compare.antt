-- ===== src/Str/Compare.antt =====
-- `streq` and `strl` of util/str.c against lists.
use feudos.Prelude.{
  Option, none, bind-eq-some, Bool-cases, inl, inr, if◌then◌else◌, ◌>>=◌, ℕ, ◌+◌, ◌≡◌, refl, ◌↔◌,
  Bool, true, false, some, List, [], ◌∷◌, ◌++◌, arith, ◌==◌, length, ◌&&◌,
}
use feudos.Str.{streq, strl, strl_loop, Lacks}

-- Equality of texts as lists.
abbrev pub same_text : List ℕ → List ℕ → Bool
same_text [] [] = true
same_text [] (y ∷ t) = false
same_text (x ∷ s) [] = false
same_text (x ∷ s) (y ∷ t) = x == y && same_text s t

same_text_iff : (s t : List ℕ) → (same_text s t ≡ true) ↔ (s ≡ t)
same_text_iff [] [] = ground arith
same_text_iff [] (y ∷ t) = ground arith
same_text_iff (x ∷ s) [] = ground arith
same_text_iff (x ∷ s) (y ∷ t) = ground (arith, (same_text_iff s t).0, (same_text_iff s t).1)

pub streq-same_text :
    (s t r q : List ℕ)
    → Lacks 0 s
    → Lacks 0 t
    → streq (s ++ 0 ∷ r) (t ++ 0 ∷ q) ≡ some (same_text s t)
unfolding streq
streq-same_text [] [] r q hs ht = refl
streq-same_text [] (y ∷ t) r q hs ht = ground arith
streq-same_text (x ∷ s) [] r q hs ht = ground arith
streq-same_text (x ∷ s) (y ∷ t) r q hs ht = ground (arith, streq-same_text s t r q)

-- On two NUL-terminated texts, whatever follows their terminators, `streq` reads inside both
-- arrays, returns, and returns true exactly when the texts are equal.
pub streq-eq_iff :
    (s t r q : List ℕ)
    → Lacks 0 s
    → Lacks 0 t
    → (b : Bool) × (streq (s ++ 0 ∷ r) (t ++ 0 ∷ q) ≡ some b) × ((b ≡ true) ↔ (s ≡ t))
streq-eq_iff s t r q hs ht = (same_text s t, streq-same_text s t r q hs ht, same_text_iff s t)

strl_loop-length :
    (c : ℕ) (s r : List ℕ) → Lacks 0 s → strl_loop c (s ++ 0 ∷ r) ≡ some (c + length s)
unfolding strl_loop
strl_loop-length c [] r h = ground arith
strl_loop-length c (x ∷ s) r h = ground (arith, strl_loop-length (c + 1) s r)

-- `strl` of a NUL-terminated text is the number of bytes before the terminator.
pub strl-length : (s r : List ℕ) → Lacks 0 s → strl (s ++ 0 ∷ r) ≡ some (length s)
unfolding strl
strl-length s r h = ground (arith, strl_loop-length 0 s r h)

-- The bytes of a C string before its terminator; `none` where there is no terminator.
unfoldable pub c_text : List ℕ → Option (List ℕ)
c_text [] = none
c_text (c ∷ cs) = let rest = c_text cs in if c == 0 then some [] else (do t ← rest; some (c ∷ t))

pub c_text-eq-some :
    (x cs : List ℕ) → c_text x ≡ some cs → (r : List ℕ) × (x ≡ cs ++ 0 ∷ r) × Lacks 0 cs
unfolding c_text
c_text-eq-some [] cs e = cc
c_text-eq-some (c ∷ x) cs e = elim (Bool-cases (c == 0)) [
  | inl z ↦ let f : cs ≡ [] = ground arith in rw f (x, ground arith, tt)
  | inr z ↦
      let (t, et, f) = bind-eq-some (c_text x) (λ t. some (c ∷ t)) (rw z at e) in
      let (r, er, h) = c_text-eq-some x t et in
      let f' : cs ≡ c ∷ t = cc f in rw f' (r, cc er, (ground arith, h))
]

-- ===== src/Str/Lexeme.antt =====
-- `strfle` and `strfnl` of util/str.c on a text of lexemes.
use feudos.Prelude.{
  ℕ, zero, suc, ◌+◌, ◌-◌, ◌<◌, ◌≡◌, ◌≢◌, ◌⊎◌, Bool, true, false, Option, some, none, List, [], ◌∷◌,
  ◌++◌, arith, length, replicate, ◌==◌, if◌then◌else◌,
}
use feudos.Prelude.Int.{pos}
use feudos.Str.{strfle, strfle_loop, strfnl, strfnl_loop, Lacks}

-- The scan for the end of a lexeme stops at the first separator or terminator.
strfle_loop_stop :
    (sep i e : ℕ) (s r : List ℕ)
    → Lacks 0 s
    → Lacks sep s
    → (e ≡ 0) ⊎ (e ≡ sep)
    → 0 < i + length s
    → strfle_loop sep i (s ++ e ∷ r) ≡ some (pos (i + length s - 1))
unfolding strfle_loop
strfle_loop_stop sep i e [] r h0 hs he hp = ground arith
strfle_loop_stop sep i e (c ∷ s) r h0 hs he hp = ground (arith, strfle_loop_stop sep (suc i) e s r)

-- `strfle` points at the last byte of a non-empty first lexeme, whether a separator or the
-- terminator follows it.
pub strfle_lexeme :
    (sep e : ℕ) (s r : List ℕ)
    → Lacks 0 s
    → Lacks sep s
    → (e ≡ 0) ⊎ (e ≡ sep)
    → 0 < length s
    → strfle (s ++ e ∷ r) sep ≡ some (pos (length s - 1))
unfolding strfle
strfle_lexeme sep e s r h0 hs he hp = ground (arith, strfle_loop_stop sep 0 e s r)

-- Before the first separator the scan only counts.
strfnl_loop_lexeme :
    (sep i : ℕ) (s r : List ℕ)
    → Lacks 0 s
    → Lacks sep s
    → strfnl_loop sep i false (s ++ r) ≡ strfnl_loop sep (i + length s) false r
unfolding strfnl_loop
strfnl_loop_lexeme sep i [] r h0 hs = ground arith
strfnl_loop_lexeme sep i (c ∷ s) r h0 hs = ground (arith, strfnl_loop_lexeme sep (suc i) s r)

strfnl_loop_gap :
    (sep i k : ℕ) (b : Bool) (r : List ℕ)
    → sep ≢ 0
    → strfnl_loop sep i b (replicate k sep ++ r)
      ≡ strfnl_loop sep (i + k) (if k == 0 then b else true) r
unfolding strfnl_loop
strfnl_loop_gap sep i zero b r h = ground arith
strfnl_loop_gap sep i (suc k) b r h = ground (arith, strfnl_loop_gap sep (suc i) k true r)

strfnl-loop :
    (sep k c : ℕ) (s r : List ℕ)
    → Lacks 0 s
    → Lacks sep s
    → sep ≢ 0
    → strfnl (s ++ (replicate k sep ++ c ∷ r)) sep
      ≡ strfnl_loop sep (length s + k) (if k == 0 then false else true) (c ∷ r)
unfolding strfnl
strfnl-loop sep k c s r h0 hs hz = ground (
  arith,
  strfnl_loop_lexeme sep 0 s (replicate k sep ++ c ∷ r),
  strfnl_loop_gap sep (length s) k false (c ∷ r),
)

-- What `strfnl` returns at `c`, the first byte behind the lexeme and its `k` separators.
abbrev pub next_lexeme : ℕ → ℕ → ℕ → Option ℕ
next_lexeme n zero c = none
next_lexeme n (suc k) c = if c == 0 then none else some (n + suc k)

-- `strfnl` skips the first lexeme and the separators behind it: it points at the byte that
-- follows if there is a separator and that byte is no terminator, and is NULL otherwise, where a
-- text with no separator ends behind its only lexeme.
pub strfnl_lexeme :
    (sep k c : ℕ) (s r : List ℕ)
    → Lacks 0 s
    → Lacks sep s
    → sep ≢ 0
    → c ≢ sep
    → (k ≡ 0 → c ≡ 0)
    → strfnl (s ++ (replicate k sep ++ c ∷ r)) sep ≡ some (next_lexeme (length s) k c)
unfolding strfnl_loop
strfnl_lexeme sep zero c s r h0 hs hz hc he =
    ground (arith, strfnl-loop sep 0 c s r, he (omega arith))
strfnl_lexeme sep (suc k) c s r h0 hs hz hc he = ground (arith, strfnl-loop sep (suc k) c s r)

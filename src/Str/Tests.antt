-- ===== src/Str/Tests.antt =====
-- The theorems on util/str.c and util/memops.c at concrete texts.
use feudos.Prelude.{ℕ, ◌≡◌, ◌↔◌, Bool, true, some, List, [], ◌∷◌, ◌++◌, arith}
use feudos.Str.{streq}
use feudos.Str.Compare.{streq-eq_iff}

abbrev echo : List ℕ
echo = b'e' ∷ b'c' ∷ b'h' ∷ b'o' ∷ []

-- "echo  hi"
abbrev command : List ℕ
command = echo ++ (32 ∷ 32 ∷ b'h' ∷ b'i' ∷ 0 ∷ [])

streq-eq_iff_example :
    (b : Bool) × (streq (echo ++ 0 ∷ 7 ∷ []) (echo ++ 0 ∷ []) ≡ some b)
    × ((b ≡ true) ↔ (echo ≡ echo))
streq-eq_iff_example = streq-eq_iff echo echo (7 ∷ []) [] (omega arith) (omega arith)

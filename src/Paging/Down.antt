-- ===== src/Paging/Down.antt =====
-- The shape of `map_page` of arch/x86_64/paging.c: three steps down the tables and a write, and what
-- they are to leave.
use feudos.Prelude.{
  ℕ, ◌+◌, ◌*◌, ◌/◌, ◌<◌, ◌≤◌, ◌≡◌, ◌≢◌, arith, Option, some, List, [], ◌∷◌, length, ◌>>=◌, ◌⊎◌,
}
use feudos.Paging.{Boot, Memory, write, entry_at, descend}
use feudos.Paging.Walk.{
  Words, slot, frame, present, large, walk, page_at, fresh, Tables, last, missing, Outside, Indices,
}

-- The steps down by these indices, and the write of the last entry.
unfoldable pub down : Boot → ℕ → List ℕ → ℕ → ℕ → Memory → Option Memory
down b v [] i e m = some (write (entry_at b v i) e m)
down b v (j ∷ js) i e m = do (v', m') ← descend b v j m; down b v' js i e m'

pub walk-step :
    (w : Words) (table i e g : ℕ) (is : List ℕ)
    → w (slot table i) ≡ e
    → present e ≡ 1
    → large e ≡ 0
    → walk w (frame e) is ≡ some g
    → walk w table (i ∷ is) ≡ some g
unfolding walk
walk-step w table i e g is h hp hl rest = rw (h, hp, hl) rest

-- An entry of one table lies in no other.
pub Outside-slot :
    (page i : ℕ) (fs : List ℕ) → i < 512 → Outside (page * 4096) fs → Outside (slot page i) fs
Outside-slot page i [] hi h = tt
Outside-slot page i (f ∷ fs) hi (ne, h) = (omega (arith, ne), Outside-slot page i fs hi h)

-- A cleared table leads to fresh ones only.
pub Tables-cleared :
    (w : Words) (next limit t : ℕ) (is : List ℕ)
    → ((j : ℕ) → j < 512 → w (slot t j) ≡ 0)
    → Indices is
    → next + length is ≤ limit
    → Tables w next limit t is (t ∷ fresh next is)
Tables-cleared w next limit t [] zeros hi room = last
Tables-cleared w next limit t (j ∷ js) zeros (hj, hi) room =
    missing (let z = zeros j hj in omega (arith, z)) room

-- The last of some tables behind the table `d`.
abbrev pub end_of : ℕ → List ℕ → ℕ
end_of d [] = d
end_of d (f ∷ fs) = end_of f fs

-- A word that holds a present entry, in none of the tables of the scratch array that are still free,
-- which begin at `next`.
abbrev pub InUse : Memory → ℕ → ℕ → ℕ → Type 0
InUse m next limit x = (present (m.words x) ≡ 1) × ((x / 4096 < next) ⊎ (limit ≤ x / 4096))

-- The processor finds the entry's page. Nothing outside the tables has changed, and no entry in use
-- but the one that is set.
abbrev pub Mapped : ℕ → Memory → ℕ → List ℕ → ℕ → ℕ → List ℕ → Memory → Type 0
Mapped first m table is i page fs m' =
    ((g : ℕ) × (walk m'.words table is ≡ some g) × (page_at m'.words g i ≡ some page))
    × ((x : ℕ) → Outside x fs → m'.words x ≡ m.words x)
    × ((d x : ℕ)
        → InUse m (first + m.used) (first + 4) x
        → x ≢ slot (end_of d fs) i
        → m'.words x ≡ m.words x)

-- ===== src/Paging/Walk.antt =====
-- The processor's walk of the page tables, and the tables that a mapping goes through.
use feudos.Prelude.{
  ℕ, suc, ◌+◌, ◌*◌, ◌/◌, ◌%◌, ◌^◌, ◌<◌, ◌≤◌, length, ◌≡◌, ◌≢◌, Option, none, some, List, [], ◌∷◌,
  ◌==◌, ◌&&◌, if◌then◌else◌, ◌>>=◌,
}

-- The physical memory; a table is given by the number of its page.
abbrev pub Words : Type 0
Words = ℕ → ℕ

abbrev pub slot : ℕ → ℕ → ℕ
slot table i = table * 4096 + 8 * i

-- The page that an entry points to, in the bits 12 to 51.
abbrev pub frame : ℕ → ℕ
frame e = e / 2 ^ 12 % 2 ^ 40

-- Bit 0 of an entry that is present, and bit 7 of one that maps a large page.
abbrev pub present : ℕ → ℕ
present e = e % 2

abbrev pub large : ℕ → ℕ
large e = e / 2 ^ 7 % 2

-- The walk through the tables by these indices, which ends at the last table; `none` where an
-- entry is not present or maps a large page.
unfoldable pub walk : Words → ℕ → List ℕ → Option ℕ
walk w table [] = some table
walk w table (i ∷ is) =
    let e = w (slot table i) in
    let rest = walk w (frame e) is in if present e == 1 && large e == 0 then rest else none

-- The last step, where bit 7 has another meaning.
abbrev pub page_at : Words → ℕ → ℕ → Option ℕ
page_at w table i = let e = w (slot table i) in if present e == 1 then some (frame e) else none

-- The fresh tables for these indices, from page `next` on.
abbrev pub fresh : ℕ → List ℕ → List ℕ
fresh next [] = []
fresh next (i ∷ is) = next ∷ fresh (suc next) is

-- The tables of a walk, where the missing ones are to be the pages from `next` to `limit`. The entries
-- that are present have no bit above the address and map no large page.
pub data Tables (w : Words) (next limit : ℕ) : ℕ → List ℕ → List ℕ → Type 0 where
  last : {table : ℕ} → Tables w next limit table [] (table ∷ [])
  existing :
      {table i : ℕ} {is fs : List ℕ}
      → present (w (slot table i)) ≡ 1
      → w (slot table i) < 2 ^ 52
      → large (w (slot table i)) ≡ 0
      → Tables w next limit (frame (w (slot table i))) is fs
      → Tables w next limit table (i ∷ is) (table ∷ fs)
  missing :
      {table i : ℕ} {is : List ℕ}
      → present (w (slot table i)) ≡ 0
      → next + length (i ∷ is) ≤ limit
      → Tables w next limit table (i ∷ is) (table ∷ fresh next (i ∷ is))

-- The address lies in none of these pages.
abbrev pub Outside : ℕ → List ℕ → Type 0
Outside x [] = Unit
Outside x (f ∷ fs) = (x / 4096 ≢ f) × Outside x fs

-- The pages are pairwise different, and below 2^40.
abbrev pub Distinct : List ℕ → Type 0
Distinct [] = Unit
Distinct (f ∷ fs) = (f < 2 ^ 40) × Outside (f * 4096) fs × Distinct fs

-- The indices of entries.
abbrev pub Indices : List ℕ → Type 0
Indices [] = Unit
Indices (i ∷ is) = (i < 512) × Indices is

-- The indices of an address for the three upper levels, from the top.
abbrev pub upper : ℕ → List ℕ
upper virt = virt / 2 ^ 39 % 512 ∷ virt / 2 ^ 30 % 512 ∷ virt / 2 ^ 21 % 512 ∷ []

-- The physical address of a virtual one, by the tables below the page `top`.
abbrev pub translate : Words → ℕ → ℕ → Option ℕ
translate w top virt = do
  table ← walk w top (upper virt)
  page ← page_at w table (virt / 2 ^ 12 % 512)
  some (page * 4096 + virt % 4096)

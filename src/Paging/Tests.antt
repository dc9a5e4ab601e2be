-- ===== src/Paging/Tests.antt =====
-- The theorems on arch/x86_64/paging.c at an address whose tables are missing, beside one that is
-- mapped, and at one in a large page.
use feudos.Prelude.{ℕ, ◌≡◌, ◌≢◌, ◌==◌, if◌then◌else◌, refl, some, List, [], ◌∷◌, arith, Yields}
use feudos.Paging.{Boot, Memory, map_page}
use feudos.Paging.Walk.{walk, translate, upper, Tables, existing, missing, Outside}
use feudos.Paging.Table.{Loaded}
use feudos.Paging.Map.{map_page-translate}
use feudos.Paging.Others.{map_page-others}
use feudos.Paging.Large.{translate_large, InLargePage, map_page-overwrites}

-- The scratch array is at the physical page 0x205.
abbrev boot : Boot
boot = record {
  hhdm_offset = 0xFFFF800000000000;
  kernel_phys_base = 0x200000;
  kernel_virt_base = 0xFFFFFFFF80000000;
  pt_scratch = 0xFFFFFFFF80005000;
  cr3 = 0x1000;
}

boot-Loaded : Loaded boot 0x205
boot-Loaded = record {
  hhdm_small = omega arith;
  in_image = omega arith;
  no_wrap = omega arith;
  scratch_phys = omega arith;
  first_small = omega arith;
}

abbrev empty : Memory
empty = record { words = λ x. 0; used = 0 }

-- The address that `_start` maps, and the top table with three of the scratch array.
abbrev screen : ℕ
screen = 0xFFFF8000000B8000

abbrev tables : List ℕ
tables = 1 ∷ 0x205 ∷ 0x206 ∷ 0x207 ∷ []

empty-Tables : Tables empty.words 0x205 0x209 1 (upper screen) tables
empty-Tables = missing refl (omega arith)

map_page-translate_example :
    Yields
      (λ m'.
        (translate m'.words 1 screen ≡ some 0xB8000)
        × ((x : ℕ) → Outside x tables → m'.words x ≡ 0))
      (map_page boot screen 0xB8000 empty)
map_page-translate_example =
    map_page-translate boot 0x205 1 screen 0xB8000 tables empty boot-Loaded refl (omega arith)
      empty-Tables (omega arith)

-- The loader's map: a table for each of two levels, and a large page at 0x600000.
abbrev entry_of : ℕ → ℕ
entry_of x =
    if x == 0x1800
    then 0x2003
    else if x == 0x2000
    then 0x3003
    else if x == 0x3000
    then 0x600083
    else 0

abbrev loader : Memory
loader = record { words = entry_of; used = 0 }

-- The index of the page in the large page is 5.
abbrev address : ℕ
address = 0xFFFF800000005000

loader-InLargePage : InLargePage loader.words 1 address 2 3
loader-InLargePage = record {
  top_small = omega arith;
  first_entry = (refl, omega arith);
  first_table = refl;
  to_second = refl;
  second_entry = (refl, omega arith);
  second_table = refl;
  to_directory = refl;
  entry = (refl, omega arith);
  is_large = refl;
  off_top = omega arith;
  off_second = omega arith;
  off_directory = omega arith;
}

-- The new entry for the physical page 0xB8000 is at 0x600028.
map_page-overwrites_example :
    Yields
      (λ m'.
        (translate_large m'.words 1 address ≡ some 0x605000)
        × (translate_large entry_of 1 0xFFFF800000000028 ≡ some 0x600028)
        × (m'.words 0x600028 ≡ 0xB8003)
        × ((x : ℕ) → x ≢ 0x600028 → m'.words x ≡ entry_of x))
      (map_page boot address 0xB8000 loader)
unfolding walk
map_page-overwrites_example =
    map_page-overwrites boot 0x205 1 address 0xB8000 2 3 loader boot-Loaded refl (omega arith)
      loader-InLargePage

-- Tables that map the page 0x9000 near the text screen, whose last table is missing.
abbrev near_entries : ℕ → ℕ
near_entries x =
    if x == 0x1800
    then 0x2003
    else if x == 0x2000
    then 0x3003
    else if x == 0x3008
    then 0x4003
    else if x == 0x4038
    then 0x9003
    else 0

abbrev near : Memory
near = record { words = near_entries; used = 0 }

near-Tables : Tables near_entries 0x205 0x209 1 (upper screen) (1 ∷ 2 ∷ 3 ∷ 0x205 ∷ [])
near-Tables =
    existing refl (omega arith) refl (existing refl (omega arith) refl (missing refl (omega arith)))

map_page-others_example :
    Yields
      (λ m'. translate m'.words 1 0xFFFF800000207000 ≡ some 0x9000)
      (map_page boot screen 0xB8000 near)
unfolding walk
map_page-others_example =
    map_page-others boot 0x205 1 screen 0xB8000 0xFFFF800000207000 (1 ∷ 2 ∷ 3 ∷ 0x205 ∷ []) near
      boot-Loaded refl (omega arith) near-Tables (omega arith)
      (
        ((refl, omega arith), omega arith),
        (
          ((refl, omega arith), omega arith),
          (((refl, omega arith), omega arith), (((refl, omega arith), omega arith), tt)),
        ),
      )

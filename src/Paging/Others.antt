-- ===== src/Paging/Others.antt =====
-- arch/x86_64/paging.c, `map_page`: the addresses that it does not map.
use feudos.Prelude.{
  ℕ, ◌+◌, ◌*◌, ◌/◌, ◌%◌, ◌^◌, ◌<◌, ◌≡◌, ◌≢◌, refl, List, [], ◌∷◌, ◌==◌, ◌&&◌, Bool-cases, inl, inr,
  Yields, Yields-mono,
}
use feudos.Paging.{Boot, Memory, map_page}
use feudos.Paging.Walk.{
  Words, slot, frame, present, large, walk, Tables, Distinct, upper, translate,
}
use feudos.Paging.Table.{Loaded}
use feudos.Paging.Down.{InUse, end_of}
use feudos.Paging.Map.{map_page-Mapped}

-- All entries that the processor reads for these indices.
abbrev pub Along : (ℕ → Type 0) → Words → ℕ → List ℕ → Type 0
Along P w table [] = Unit
Along P w table (i ∷ is) = P (slot table i) × Along P w (frame (w (slot table i))) is

Along-map :
    {P Q : ℕ → Type 0} (w : Words) (table : ℕ) (is : List ℕ)
    → ((x : ℕ) → P x → Q x)
    → Along P w table is
    → Along Q w table is
Along-map w table [] f h = tt
Along-map w table (i ∷ is) f (p, h) =
    (f (slot table i) p, Along-map w (frame (w (slot table i))) is f h)

-- The four indices of an address.
abbrev pub indices : ℕ → List ℕ
indices virt =
    virt / 2 ^ 39 % 512 ∷ virt / 2 ^ 30 % 512 ∷ virt / 2 ^ 21 % 512 ∷ virt / 2 ^ 12 % 512 ∷ []

translate-same :
    (w w' : Words) (top virt : ℕ)
    → Along (λ x. w' x ≡ w x) w top (indices virt)
    → translate w' top virt ≡ translate w top virt
unfolding walk
translate-same w w' top virt (h1, (h2, (h3, (h4, _)))) =
    let e1 = w (slot top (virt / 2 ^ 39 % 512)) in
    let e2 = w (slot (frame e1) (virt / 2 ^ 30 % 512)) in
    let e3 = w (slot (frame e2) (virt / 2 ^ 21 % 512)) in
    rw (h1, h2, h3)
      (elim (Bool-cases (present e1 == 1 && large e1 == 0)) [
        | inr gone ↦ rw gone refl
        | inl y1 ↦ rw y1 (elim (Bool-cases (present e2 == 1 && large e2 == 0)) [
          | inr gone ↦ rw gone refl
          | inl y2 ↦ rw y2 (elim (Bool-cases (present e3 == 1 && large e3 == 0)) [
            | inr gone ↦ rw gone refl
            | inl y3 ↦ rw (y3, h4) refl
          ])
        ])
      ])

-- An entry that the mapping leaves: it is in use and not the one that is set.
abbrev pub Spared : Memory → ℕ → ℕ → ℕ → Type 0
Spared m first set x = InUse m (first + m.used) (first + 4) x × (x ≢ set)

-- Where `map_page` maps an address as `map_page-translate` says, another address keeps its translation,
-- if the entries that the processor reads for it are present, lie in none of the tables that the
-- scratch array has left, and are not the entry that is set.
pub map_page-others :
    (b : Boot) (first top virt phys other : ℕ) (fs : List ℕ) (m : Memory)
    → Loaded b first
    → b.cr3 ≡ top * 4096
    → phys < 2 ^ 52
    → Tables m.words (first + m.used) (first + 4) top (upper virt) fs
    → Distinct fs
    → Along
        (Spared m first (slot (end_of top fs) (virt / 2 ^ 12 % 512)))
        m.words
        top
        (indices other)
    → Yields
        (λ m'. translate m'.words top other ≡ translate m.words top other)
        (map_page b virt phys m)
map_page-others b first top virt phys other fs m l e h t d a =
    Yields-mono _ (map_page-Mapped b first top virt phys fs m l e h t d) λ m' (found, same, kept).
      translate-same m.words m'.words top other (
        Along-map {P = Spared m first (slot (end_of top fs) (virt / 2 ^ 12 % 512))}
          {Q = λ x. m'.words x ≡ m.words x} m.words top (indices other)
          (λ x (u, ne). kept top x u ne) a)

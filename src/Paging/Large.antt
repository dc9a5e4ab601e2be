-- ===== src/Paging/Large.antt =====
-- arch/x86_64/paging.c, `map_page`, at an address that the loader maps by a page of 2^21 bytes.
use feudos.Prelude.{
  ℕ, ◌+◌, ◌*◌, ◌/◌, ◌%◌, ◌^◌, ◌<◌, ◌≡◌, ◌≢◌, ◌∙◌, refl, ap, arith, Option, none, some, [], ◌∷◌,
  ◌==◌, ◌&&◌, if◌then◌else◌, ◌>>=◌, true, false, sym, ne→==false, Yields,
}
use feudos.Paging.{Boot, Memory, write, map_page}
use feudos.Paging.Walk.{Words, slot, frame, present, large, walk}
use feudos.Paging.Table.{Loaded, entry_at-slot, descend-existing}
use feudos.Paging.Down.{down}
use feudos.Paging.Map.{map_page-down}

-- The physical address of a virtual one in a large page of 2^21 bytes.
abbrev pub translate_large : Words → ℕ → ℕ → Option ℕ
translate_large w top virt = do
  directory ← walk w top (virt / 2 ^ 39 % 512 ∷ virt / 2 ^ 30 % 512 ∷ [])
  let e = w (slot directory (virt / 2 ^ 21 % 512))
  if present e == 1 && large e == 1
      then some (e / 2 ^ 21 % 2 ^ 31 * 2 ^ 21 + virt % 2 ^ 21)
      else none

-- An entry that is present, with no bit above the address.
abbrev pub IsPresent : ℕ → Type 0
IsPresent e = (present e ≡ 1) × (e < 2 ^ 52)

-- The three tables down to the entry of a page of 2^21 bytes, which begins at none of them.
pub record InLargePage (w : Words) (top virt second directory : ℕ) : Type 0 where
  pub top_small : top < 2 ^ 40
  pub first_entry : IsPresent (w (slot top (virt / 2 ^ 39 % 512)))
  pub first_table : large (w (slot top (virt / 2 ^ 39 % 512))) ≡ 0
  pub to_second : frame (w (slot top (virt / 2 ^ 39 % 512))) ≡ second
  pub second_entry : IsPresent (w (slot second (virt / 2 ^ 30 % 512)))
  pub second_table : large (w (slot second (virt / 2 ^ 30 % 512))) ≡ 0
  pub to_directory : frame (w (slot second (virt / 2 ^ 30 % 512))) ≡ directory
  pub entry : IsPresent (w (slot directory (virt / 2 ^ 21 % 512)))
  pub is_large : large (w (slot directory (virt / 2 ^ 21 % 512))) ≡ 1
  pub off_top : frame (w (slot directory (virt / 2 ^ 21 % 512))) ≢ top
  pub off_second : frame (w (slot directory (virt / 2 ^ 21 % 512))) ≢ second
  pub off_directory : frame (w (slot directory (virt / 2 ^ 21 % 512))) ≢ directory

large_found :
    (w : Words) (top virt second directory e1 e2 e : ℕ)
    → w (slot top (virt / 2 ^ 39 % 512)) ≡ e1
    → present e1 ≡ 1
    → large e1 ≡ 0
    → frame e1 ≡ second
    → w (slot second (virt / 2 ^ 30 % 512)) ≡ e2
    → present e2 ≡ 1
    → large e2 ≡ 0
    → frame e2 ≡ directory
    → w (slot directory (virt / 2 ^ 21 % 512)) ≡ e
    → present e ≡ 1
    → large e ≡ 1
    → translate_large w top virt ≡ some (e / 2 ^ 21 % 2 ^ 31 * 2 ^ 21 + virt % 2 ^ 21)
unfolding walk
large_found w top virt second directory e1 e2 e h1 p1 l1 f1 h2 p2 l2 f2 h p l =
    rw (h1, p1, l1, f1, h2, p2, l2, f2, h, p, l) refl

-- `map_page` does not fault, and takes the large page for a table.
map_page-write :
    (b : Boot) (first top virt phys second directory : ℕ) (m : Memory)
    → Loaded b first
    → b.cr3 ≡ top * 4096
    → phys < 2 ^ 52
    → InLargePage m.words top virt second directory
    → map_page b virt phys m
      ≡ some (
          write
            (slot (frame (m.words (slot directory (virt / 2 ^ 21 % 512)))) (virt / 2 ^ 12 % 512))
            (phys / 4096 * 4096 + 3)
            m)
unfolding down
map_page-write b first top virt phys second directory m l ec h p =
    map_page-down b first top virt phys m ec h
    ∙ rw
        (
          descend-existing b first l top (virt / 2 ^ 39 % 512) m p.top_small (omega arith)
              p.first_entry.0 p.first_entry.1,
          p.to_second,
          descend-existing b first l second (virt / 2 ^ 30 % 512) m (omega (arith, p.to_second))
              (omega arith) p.second_entry.0 p.second_entry.1,
          p.to_directory,
          descend-existing b first l directory (virt / 2 ^ 21 % 512) m
              (omega (arith, p.to_directory)) (omega arith) p.entry.0 p.entry.1,
          entry_at-slot b first l (frame (m.words (slot directory (virt / 2 ^ 21 % 512))))
              (virt / 2 ^ 12 % 512) (omega arith) (omega arith),
        )
        refl

-- A word outside the tables of the walk leaves the large page as it is.
translate_large-write :
    (top virt second directory a v : ℕ) (m : Memory)
    → InLargePage m.words top virt second directory
    → a / 4096 ≢ top
    → a / 4096 ≢ second
    → a / 4096 ≢ directory
    → translate_large (write a v m).words top virt ≡ translate_large m.words top virt
translate_large-write top virt second directory a v m p n1 n2 n3 =
    let i1 = virt / 2 ^ 39 % 512 in
    let i2 = virt / 2 ^ 30 % 512 in
    let i3 = virt / 2 ^ 21 % 512 in
    let kept : (t i : ℕ)
        → i < 512
        → a / 4096 ≢ t
        → (write a v m).words (slot t i) ≡ m.words (slot t i) =
      λ t i hi ne.
        let other : slot t i == a ≡ false = ne→==false (slot t i) a (omega (arith, hi, ne)) in
        rw other refl in
    let before =
      large_found m.words top virt second directory _ _ _ refl p.first_entry.0 p.first_table
        p.to_second refl p.second_entry.0 p.second_table p.to_directory refl p.entry.0 p.is_large in
    let after =
      large_found (write a v m).words top virt second directory _ _ _ (kept top i1 (omega arith) n1)
        p.first_entry.0 p.first_table p.to_second (kept second i2 (omega arith) n2) p.second_entry.0
        p.second_table p.to_directory (kept directory i3 (omega arith) n3) p.entry.0 p.is_large in
    after ∙ sym before

-- Where the loader's addresses are as `Loaded` says and the physical address is below 2^52: let
-- the walk of the address pass two tables and end in the third at an entry for a large page of
-- 2^21 bytes, with the top table and all three entries below 2^52, and none of the three tables in
-- the first page of the large one. Then `map_page` does not fault and does not map the address:
-- the processor translates it as before. The new entry goes to a word inside the large page
-- instead, and no other word changes.
pub map_page-overwrites :
    (b : Boot) (first top virt phys second directory : ℕ) (m : Memory)
    → Loaded b first
    → b.cr3 ≡ top * 4096
    → phys < 2 ^ 52
    → InLargePage m.words top virt second directory
    → Yields
        (λ m'.
          let inside =
            slot (frame (m.words (slot directory (virt / 2 ^ 21 % 512)))) (virt / 2 ^ 12 % 512) in
          (translate_large m'.words top virt ≡ translate_large m.words top virt)
          × (translate_large m.words top (virt / 2 ^ 21 * 2 ^ 21 + inside % 2 ^ 21) ≡ some inside)
          × (m'.words inside ≡ phys / 4096 * 4096 + 3)
          × ((x : ℕ) → x ≢ inside → m'.words x ≡ m.words x))
        (map_page b virt phys m)
map_page-overwrites b first top virt phys second directory m l ec h p =
    let e = m.words (slot directory (virt / 2 ^ 21 % 512)) in
    let inside = slot (frame e) (virt / 2 ^ 12 % 512) in
    let v = phys / 4096 * 4096 + 3 in
    let same : inside == inside ≡ true = ground arith in
    let page : inside / 4096 ≡ frame e = omega arith in
    let virt2 = virt / 2 ^ 21 * 2 ^ 21 + inside % 2 ^ 21 in
    let same39 : virt2 / 2 ^ 39 % 512 ≡ virt / 2 ^ 39 % 512 = omega arith in
    let same30 : virt2 / 2 ^ 30 % 512 ≡ virt / 2 ^ 30 % 512 = omega arith in
    let same21 : virt2 / 2 ^ 21 % 512 ≡ virt / 2 ^ 21 % 512 = omega arith in
    let here : e / 2 ^ 21 % 2 ^ 31 * 2 ^ 21 + virt2 % 2 ^ 21 ≡ inside = omega arith in
    let found : translate_large m.words top virt2 ≡ some inside =
      large_found m.words top virt2 second directory _ _ _ (ap (λ i. m.words (slot top i)) same39)
        p.first_entry.0 p.first_table p.to_second (ap (λ i. m.words (slot second i)) same30)
        p.second_entry.0 p.second_table p.to_directory (ap (λ i. m.words (slot directory i)) same21)
        p.entry.0 p.is_large
      ∙ ap some here in
    (
      write inside v m,
      map_page-write b first top virt phys second directory m l ec h p,
      (
        translate_large-write top virt second directory inside v m p (λ q. p.off_top (sym page ∙ q))
            (λ q. p.off_second (sym page ∙ q)) (λ q. p.off_directory (sym page ∙ q)),
        found,
        rw same refl,
        λ x ne. let other : x == inside ≡ false = ne→==false x inside ne in rw other refl,
      ),
    )

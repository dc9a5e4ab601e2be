-- ===== src/Paging/Map.antt =====
-- arch/x86_64/paging.c, `map_page`: the processor's walk finds the page.
use feudos.Prelude.{
  ℕ, suc, ◌+◌, ◌*◌, ◌/◌, ◌%◌, ◌^◌, ◌<◌, ◌≡◌, ◌≢◌, ◌∙◌, refl, ap, arith, true, false, some, List, [],
  ◌∷◌, ◌==◌, ne→==false, Yields, Yields-mono,
}
use feudos.Paging.{Boot, Memory, write, map_page}
use feudos.Paging.Bits.{flags_set, page_of}
use feudos.Paging.Walk.{
  slot, frame, present, walk, fresh, Tables, last, existing, missing, Outside, Distinct, Indices,
  upper, translate,
}
use feudos.Paging.Table.{Loaded, virt_of, entry_at-slot, linked, descend-existing, descend-missing}
use feudos.Paging.Down.{down, walk-step, Outside-slot, Tables-cleared, InUse, Mapped}

module _ (b : Boot) (first : ℕ) (l : Loaded b first) (i page : ℕ) (small : i < 512)
    (page_small : page < 2 ^ 40) where
  last-Mapped :
      (table : ℕ) (m : Memory)
      → table < 2 ^ 40
      → Yields
          (Mapped first m table [] i page (table ∷ []))
          (down b (virt_of b table) [] i (page * 4096 + 3) m)
  unfolding down walk
  last-Mapped table m ht =
      let same : slot table i == slot table i ≡ true = ground arith in
      let here : present (page * 4096 + 3) == 1 ≡ true = ground arith in
      let found : frame (page * 4096 + 3) ≡ page = omega arith in
      rw (entry_at-slot b first l table i ht small) (
        _,
        refl,
        ((table, refl, rw (same, here, found) refl), (λ x (ne, _). apart x ne), λ d x u. other x),
      )
    where
      other :
          (x : ℕ)
          → x ≢ slot table i
          → (write (slot table i) (page * 4096 + 3) m).words x ≡ m.words x
      other x ne = let e : x == slot table i ≡ false = ne→==false x (slot table i) ne in rw e refl

      apart :
          (x : ℕ)
          → x / 4096 ≢ table
          → (write (slot table i) (page * 4096 + 3) m).words x ≡ m.words x
      apart x ne =
          let e : x == slot table i ≡ false = ne→==false x (slot table i) (omega (arith, ne)) in
          rw e refl

  -- What the link to a new table leaves as it was, the new table, and the link.
  linked-words :
      (table j x : ℕ) (m : Memory)
      → x / 4096 ≢ table
      → j < 512
      → x / 4096 ≢ first + m.used
      → (linked b first l table j m).words x ≡ m.words x
  linked-words table j x m ne hj nt =
      let e : x == slot table j ≡ false = ne→==false x (slot table j) (omega (arith, ne)) in
      let f : x / 4096 == first + m.used ≡ false = ne→==false _ _ nt in rw (e, f) refl

  -- A link replaces no entry that is in use.
  linked-InUse :
      (table j x : ℕ) (m : Memory)
      → present (m.words (slot table j)) ≡ 0
      → m.used < 4
      → InUse m (first + m.used) (first + 4) x
      → (linked b first l table j m).words x ≡ m.words x
  linked-InUse table j x m gone room (here, apart) =
      let e : x == slot table j ≡ false =
        ne→==false x (slot table j)
          (λ q. absurd (omega (arith, ap (λ a. present (m.words a)) q, here, gone))) in
      let f : x / 4096 == first + m.used ≡ false = ne→==false _ _ (omega (arith, apart, room)) in
      rw (e, f) refl

  linked-zero :
      (table j k : ℕ) (m : Memory)
      → first + m.used ≢ table
      → j < 512
      → k < 512
      → (linked b first l table j m).words (slot (first + m.used) k) ≡ 0
  linked-zero table j k m ne hj hk =
      let t = first + m.used in
      let e : slot t k == slot table j ≡ false =
        ne→==false (slot t k) (slot table j) (omega (arith, ne)) in
      let f : slot t k / 4096 == t ≡ true = ground arith in rw (e, f) refl

  linked-entry :
      (table j : ℕ) (m : Memory)
      → (linked b first l table j m).words (slot table j) ≡ (first + m.used) * 4096 + 3
  linked-entry table j m = let e : slot table j == slot table j ≡ true = ground arith in rw e refl

  down-Mapped :
      (table next : ℕ) (is fs : List ℕ) (m : Memory)
      → next ≡ first + m.used
      → Indices is
      → Tables m.words next (first + 4) table is fs
      → Distinct fs
      → Yields
          (Mapped first m table is i page fs)
          (down b (virt_of b table) is i (page * 4096 + 3) m)
  unfolding down walk
  down-Mapped table next [] fs m en hi last (ht, out, d) = last-Mapped table m ht
  down-Mapped table next (j ∷ is) fs m en (hj, hi) (existing here below leaf t) (ht, out, d) =
      rw (descend-existing b first l table j m ht hj here below) (
        Yields-mono _ (down-Mapped _ next is _ m en hi t d) λ m' ((g, found, at), same, kept). (
          (
            g,
            walk-step m'.words table j _ g is (same _ (Outside-slot table j _ hj out)) here leaf
                found,
            at,
          ),
          (λ x (_, o). same x o),
          λ d x u ne. kept table x u ne,
        ))
  down-Mapped table next (j ∷ is) fs m en (hj, hi) (missing gone room) (ht, out, d) =
      let ne : first + m.used ≢ table = omega (arith, en, out.0) in
      let t = first + m.used in
      let m1 = linked b first l table j m in
      let zeros : (k : ℕ) → k < 512 → m1.words (slot t k) ≡ 0 =
        λ k hk. linked-zero table j k m ne hj hk in
      let fs = t ∷ fresh (suc t) is in
      let d' : Distinct fs = rw en at d in
      let out' : Outside (table * 4096) fs = rw en at out in
      rw (en, descend-missing b first l table j m ht hj gone (omega (arith, en, room)))
        (Yields-mono _
          (down-Mapped t (suc t) is fs m1 (omega arith) hi
            (Tables-cleared m1.words (suc t) (first + 4) t is zeros hi (omega (arith, en, room)))
            d')
          λ m' ((g, found, at), same, kept).
            let entry : m'.words (slot table j) ≡ t * 4096 + 3 =
              same (slot table j) (Outside-slot table j fs hj out') ∙ linked-entry table j m in
            let to : walk m'.words (frame (t * 4096 + 3)) is ≡ some g =
              ap (λ f. walk m'.words f is) (omega (arith, d'.0)) ∙ found in
            (
              (g, walk-step m'.words table j _ g is entry (omega arith) (omega arith) to, at),
              (λ x (nt, o). same x o ∙ linked-words table j x m nt hj o.0),
              λ d x u ne.
                  let old = linked-InUse table j x m gone (omega (arith, en, room)) u in
                  let u1 : InUse m1 (first + m1.used) (first + 4) x =
                    (ap present old ∙ u.0, omega (arith, u.1)) in
                  kept table x u1 ne ∙ old,
            ))

-- `map_page` is the steps down and the write.
pub map_page-down :
    (b : Boot) (first top virt phys : ℕ) (m : Memory)
    → b.cr3 ≡ top * 4096
    → phys < 2 ^ 52
    → map_page b virt phys m
      ≡ down b (virt_of b top) (upper virt) (virt / 2 ^ 12 % 512) (phys / 4096 * 4096 + 3) m
unfolding map_page down
map_page-down b first top virt phys m e h =
    rw (e, page_of phys (omega arith), flags_set (phys / 4096 * 4096) (omega arith)) refl

pub map_page-Mapped :
    (b : Boot) (first top virt phys : ℕ) (fs : List ℕ) (m : Memory)
    → Loaded b first
    → b.cr3 ≡ top * 4096
    → phys < 2 ^ 52
    → Tables m.words (first + m.used) (first + 4) top (upper virt) fs
    → Distinct fs
    → Yields
        (Mapped first m top (upper virt) (virt / 2 ^ 12 % 512) (phys / 4096) fs)
        (map_page b virt phys m)
map_page-Mapped b first top virt phys fs m l e h t d =
    rw (map_page-down b first top virt phys m e h) (
      down-Mapped b first l (virt / 2 ^ 12 % 512) (phys / 4096) (omega arith) (omega arith) top
        (first + m.used) (upper virt) fs m refl (omega arith, (omega arith, (omega arith, tt))) t d)

-- Where the loader's addresses are as `Loaded` says, the physical address is below 2^52, the
-- tables that the walk of the address meets are different pages, with no large page and no bit
-- above the address in their entries, and the scratch array has room for the missing ones,
-- `map_page` does not fault. The processor then translates the address to the physical page that
-- was asked for, and the memory outside these tables is as it was.
pub map_page-translate :
    (b : Boot) (first top virt phys : ℕ) (fs : List ℕ) (m : Memory)
    → Loaded b first
    → b.cr3 ≡ top * 4096
    → phys < 2 ^ 52
    → Tables m.words (first + m.used) (first + 4) top (upper virt) fs
    → Distinct fs
    → Yields
        (λ m'.
          (translate m'.words top virt ≡ some (phys / 4096 * 4096 + virt % 4096))
          × ((x : ℕ) → Outside x fs → m'.words x ≡ m.words x))
        (map_page b virt phys m)
map_page-translate b first top virt phys fs m l e h t d =
    Yields-mono _ (map_page-Mapped b first top virt phys fs m l e h t d)
      λ m' ((g, found, at), same, kept). (rw (found, at) refl, same)

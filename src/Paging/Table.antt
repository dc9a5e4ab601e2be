-- ===== src/Paging/Table.antt =====
-- arch/x86_64/paging.c, one step down the tables.
use feudos.Prelude.{
  ℕ, suc, ◌+◌, ◌-◌, ◌*◌, ◌/◌, ◌^◌, ◌<◌, ◌≤◌, ◌≡◌, ap, ap₂, fun_ext, arith, Bool, true, some, ltb,
  leb, ◌==◌, ◌&&◌, if◌then◌else◌, lt→ltb,
}
use feudos.Paging.{Boot, Memory, u64, v2p, direct, write, alloc_table, entry_at, descend}
use feudos.Paging.Bits.{present_bit, flags_set, page_of}
use feudos.Paging.Walk.{slot, frame, present}

-- The loader's addresses fit 64 bits, and the scratch array is the four pages from `first` on.
pub record Loaded (b : Boot) (first : ℕ) : Type 0 where
  pub hhdm_small : b.hhdm_offset < 2 ^ 64
  pub in_image : b.kernel_virt_base ≤ b.pt_scratch
  pub no_wrap : b.pt_scratch + 4 * 4096 ≤ 2 ^ 64
  pub scratch_phys : b.pt_scratch - b.kernel_virt_base + b.kernel_phys_base ≡ first * 4096
  pub first_small : first + 4 ≤ 2 ^ 40

-- The loader's address of a page.
abbrev pub virt_of : Boot → ℕ → ℕ
virt_of b page = u64 (page * 4096 + b.hhdm_offset)

module _ (b : Boot) (first : ℕ) (l : Loaded b first) where
  pub entry_at-slot :
      (page i : ℕ) → page < 2 ^ 40 → i < 512 → entry_at b (virt_of b page) i ≡ slot page i
  unfolding entry_at direct
  entry_at-slot page i hp hi = omega (arith, l.hhdm_small)

  v2p-scratch : (u : ℕ) → u < 4 → v2p b (b.pt_scratch + u * 4096) ≡ (first + u) * 4096
  unfolding v2p
  v2p-scratch u h = omega (arith, l.in_image, l.no_wrap, l.scratch_phys, l.first_small)

  in_page : (t x : ℕ) → (leb (t * 4096) x && ltb x (t * 4096 + 4096)) ≡ (x / 4096 == t)
  in_page t x = ground arith

  -- The memory with a table cleared, and an entry that points to it.
  abbrev pub linked : ℕ → ℕ → Memory → Memory
  linked page i m = write (slot page i) ((first + m.used) * 4096 + 3) (record m {
    used = suc m.used;
    words = λ x. if x / 4096 == first + m.used then 0 else m.words x;
  })

  pub descend-existing :
      (page i : ℕ) (m : Memory)
      → page < 2 ^ 40
      → i < 512
      → present (m.words (slot page i)) ≡ 1
      → m.words (slot page i) < 2 ^ 52
      → descend b (virt_of b page) i m ≡ some (virt_of b (frame (m.words (slot page i))), m)
  unfolding descend
  descend-existing page i m hp hi here small =
      rw
        (
          entry_at-slot page i hp hi,
          present_bit (m.words (slot page i)),
          here,
          page_of (m.words (slot page i)) (omega arith),
        )
        (ap (λ f. some (virt_of b f, m)) (omega arith))

  pub descend-missing :
      (page i : ℕ) (m : Memory)
      → page < 2 ^ 40
      → i < 512
      → present (m.words (slot page i)) ≡ 0
      → m.used < 4
      → descend b (virt_of b page) i m ≡ some (virt_of b (first + m.used), linked page i m)
  unfolding descend alloc_table
  descend-missing page i m hp hi gone room =
      let t = first + m.used in
      let same : slot page i == slot page i ≡ true = ground arith in
      let cleared : (λ x. leb (t * 4096) x && ltb x (t * 4096 + 4096)) ≡ (λ x. x / 4096 == t) =
        fun_ext (in_page t) in
      rw
        (
          entry_at-slot page i hp hi,
          present_bit (m.words (slot page i)),
          gone,
          lt→ltb _ _ room,
          v2p-scratch m.used room,
          flags_set (t * 4096) (omega arith),
          same,
          page_of (t * 4096 + 3) (omega (arith, l.first_small)),
        )
        (ap₂
          (λ (a : ℕ) (c : ℕ → Bool). some (
            u64 (a + b.hhdm_offset),
            record m {
              used = suc m.used;
              words = λ x. if x == slot page i then t * 4096 + 3 else if c x then 0 else m.words x;
            },
          ))
          (omega arith) cleared)

-- ===== src/Paging.antt =====
-- arch/x86_64/paging.c: the mapping of a page, on the physical memory.
-- The proofs are in the modules below.
pub mod Bits
pub mod Walk
pub mod Table
pub mod Down
pub mod Map
pub mod Others
pub mod Large
mod Tests
use Prim.Native.Nat.{bit_and, bit_or}
use feudos.Prelude.{
  ℕ, suc, ◌+◌, ◌-◌, ◌*◌, ◌/◌, ◌%◌, ◌^◌, Option, some, ltb, leb, ◌==◌, if◌then◌else◌, ◌>>=◌, check,
  ◌&&◌,
}

-- What the boot loader says: `hhdm_offset` is the address at which it maps the physical memory,
-- the kernel lies at `kernel_phys_base`, and is mapped at `kernel_virt_base`. `pt_scratch` is the
-- kernel's address of the array, and `cr3` the register.
pub record Boot : Type 0 where
  pub hhdm_offset : ℕ
  pub kernel_phys_base : ℕ
  pub kernel_virt_base : ℕ
  pub pt_scratch : ℕ
  pub cr3 : ℕ

-- The 64-bit word at each physical address, and `pt_scratch_used`.
pub record Memory : Type 0 where
  pub words : ℕ → ℕ
  pub used : ℕ

abbrev pub u64 : ℕ → ℕ
u64 n = n % 2 ^ 64

-- `vaddr - kernel_virt_base + kernel_phys_base`, on 64 bits.
unfoldable pub v2p : Boot → ℕ → ℕ
v2p b vaddr = u64 (vaddr + 2 ^ 64 - b.kernel_virt_base + b.kernel_phys_base)

-- The physical address behind an address in the loader's map of the memory.
unfoldable pub direct : Boot → ℕ → ℕ
direct b vaddr = u64 (vaddr + 2 ^ 64 - b.hhdm_offset)

abbrev pub write : ℕ → ℕ → Memory → Memory
write a v m = record m { words = λ x. if x == a then v else m.words x }

-- The array of four tables of 512 entries. The kernel writes it at its own address.
unfoldable pub alloc_table : Boot → Memory → Option (ℕ × Memory)
alloc_table b m = check (ltb m.used 4) (
    let t = b.pt_scratch + m.used * 4096 in
    some (
      t,
      record m {
        used = suc m.used;
        words = λ x. if leb (v2p b t) x && ltb x (v2p b t + 4096) then 0 else m.words x;
      },
    ))

-- The physical address of an entry of a table, which is given by its address in the loader's map.
unfoldable pub entry_at : Boot → ℕ → ℕ → ℕ
entry_at b table i = direct b (u64 (table + 8 * i))

-- The three steps down: an entry that is not present gets a new table, and the next table is where
-- the entry points to.
unfoldable pub descend : Boot → ℕ → ℕ → Memory → Option (ℕ × Memory)
descend b table i m = do
  made ←
      if bit_and (m.words (entry_at b table i)) 1 == 0
      then (do
        (t, m') ← alloc_table b m
        some (write (entry_at b table i) (bit_or (v2p b t) 0x3) m'))
      else some m
  some (u64 (bit_and (made.words (entry_at b table i)) (2 ^ 64 - 1 - 0xFFF) + b.hhdm_offset), made)

-- `(virt >> n) & 0x1FF`
abbrev pub index : ℕ → ℕ → ℕ
index n virt = virt / 2 ^ n % 2 ^ 9

unfoldable pub map_page : Boot → ℕ → ℕ → Memory → Option Memory
map_page b virt phys m = do
  (pdpt, m1) ← descend b (u64 (b.cr3 + b.hhdm_offset)) (index 39 virt) m
  (pd, m2) ← descend b pdpt (index 30 virt) m1
  (pt, m3) ← descend b pd (index 21 virt) m2
  some (write (entry_at b pt (index 12 virt)) (bit_or (bit_and phys (2 ^ 64 - 1 - 0xFFF)) 0x3) m3)

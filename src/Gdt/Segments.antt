-- ===== src/Gdt/Segments.antt =====
-- arch/x86_64/gdt.c: what the processor finds behind the loaded selectors.
use feudos.Prelude.{
  ℕ, ◌+◌, ◌*◌, ◌/◌, ◌%◌, ◌^◌, ◌≡◌, refl, Option, none, some, List, [], ◌∷◌, arith, leb, length,
  get_elem?, if◌then◌else◌, Yields,
}
use feudos.Cpu.{Cpu}
use feudos.Gdt.{gdt_init, gdt_flush}

abbrev pub bit : ℕ → ℕ → ℕ
bit n w = w / 2 ^ n % 2

-- The descriptor of a selector: none behind the limit.
abbrev pub descriptor : List ℕ → Cpu → ℕ → Option ℕ
descriptor gdt c sel = if leb (sel / 8 * 8 + 7) c.gdtr.limit then get_elem? gdt (sel / 8) else none

-- A present segment of code or data of ring 0.
pub record IsSegment (e : ℕ) : Type 0 where
  pub present : bit 47 e ≡ 1
  pub ring : e / 2 ^ 45 % 4 ≡ 0
  pub not_system : bit 44 e ≡ 1

-- 64-bit code, which has no default size of operands of its own.
pub record IsCode (e : ℕ) : Type 0 where
  pub segment : IsSegment e
  pub executable : bit 43 e ≡ 1
  pub long : bit 53 e ≡ 1
  pub default_size : bit 54 e ≡ 0

pub record IsData (e : ℕ) : Type 0 where
  pub segment : IsSegment e
  pub not_executable : bit 43 e ≡ 0
  pub writable : bit 41 e ≡ 1

abbrev pub Selects : (ℕ → Type 0) → List ℕ → Cpu → ℕ → Type 0
Selects P gdt c sel = (e : ℕ) × (descriptor gdt c sel ≡ some e) × P e

-- The loaded segments: the code runs in ring 0 in 64-bit code, and data and stack are writable.
pub record IsLoaded (base : ℕ) (gdt : List ℕ) (c : Cpu) : Type 0 where
  pub table : c.gdtr.base ≡ base
  pub code : Selects IsCode gdt c c.cs
  pub data_ds : Selects IsData gdt c c.ds
  pub data_es : Selects IsData gdt c c.es
  pub data_fs : Selects IsData gdt c c.fs
  pub data_gs : Selects IsData gdt c c.gs
  pub stack : Selects IsData gdt c c.ss

-- On its table of three words `gdt_init` does not fault. The null descriptor is zero, the loaded
-- code selector, 0x08, which the interrupt gates name, selects a present 64-bit code segment of
-- ring 0, the data and stack selectors a present writable data segment of ring 0, all inside the
-- limit, and no other register changes.
pub gdt_init-IsLoaded :
    (base : ℕ) (gdt : List ℕ) (c : Cpu)
    → length gdt ≡ 3
    → Yields
        (λ (g, d).
          IsLoaded base g d
          × (get_elem? g 0 ≡ some 0)
          × (d.cs ≡ 0x08)
          × (d ≡ record c {
            gdtr = d.gdtr;
            cs = d.cs;
            ds = d.ds;
            es = d.es;
            fs = d.fs;
            gs = d.gs;
            ss = d.ss;
          }))
        (gdt_init base gdt c)
unfolding gdt_init gdt_flush
gdt_init-IsLoaded base [] c h = absurd (omega (arith, h))
gdt_init-IsLoaded base (x ∷ []) c h = absurd (omega (arith, h))
gdt_init-IsLoaded base (x ∷ y ∷ []) c h = absurd (omega (arith, h))
gdt_init-IsLoaded base (x ∷ y ∷ z ∷ []) c h =
    let found : IsData 0x0000920000000000 = omega arith in
    (
      _,
      refl,
      (
        record {
          table = refl;
          code = (_, refl, omega arith);
          data_ds = (_, refl, found);
          data_es = (_, refl, found);
          data_fs = (_, refl, found);
          data_gs = (_, refl, found);
          stack = (_, refl, found);
        },
        refl,
        refl,
        refl,
      ),
    )
gdt_init-IsLoaded base (x ∷ y ∷ z ∷ w ∷ r) c h = absurd (omega (arith, h))

-- ===== src/Gdt/Tests.antt =====
-- The theorem on arch/x86_64/gdt.c at a processor.
use feudos.Prelude.{◌≡◌, refl, some, [], ◌∷◌, get_elem?, Yields}
use feudos.Cpu.Sample.{loaded}
use feudos.Gdt.{gdt_init}
use feudos.Gdt.Segments.{IsLoaded, gdt_init-IsLoaded}

gdt_init-IsLoaded_example :
    Yields
      (λ (g, d).
        IsLoaded 0x9000 g d
        × (get_elem? g 0 ≡ some 0)
        × (d.cs ≡ 0x08)
        × (d ≡ record loaded {
          gdtr = d.gdtr;
          cs = d.cs;
          ds = d.ds;
          es = d.es;
          fs = d.fs;
          gs = d.gs;
          ss = d.ss;
        }))
      (gdt_init 0x9000 (0 ∷ 0 ∷ 0 ∷ []) loaded)
gdt_init-IsLoaded_example = gdt_init-IsLoaded 0x9000 (0 ∷ 0 ∷ 0 ∷ []) loaded refl

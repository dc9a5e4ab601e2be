-- ===== src/Ksh/Sample.antt =====
-- A processor at which the theorems on kernel/ksh/ are applied.
use feudos.Prelude.{refl}
use feudos.Str.{codes}
use feudos.Str.Compare.{c_text}
use feudos.Ksh.{Cpuid, cpu_vendor, cpu_brand}
use feudos.Ksh.Outcome.{Described}

-- A processor "GenuineIntel" with the model "CPU".
abbrev pub intel : Cpuid
intel leaf = record { eax = 0x00555043; ebx = 0x756E6547; ecx = 0x6C65746E; edx = 0x49656E69 }

pub intel-Described : Described intel (codes "GenuineIntel") (codes "CPU")
unfolding cpu_vendor cpu_brand c_text
intel-Described = record { vendor_text = refl; brand_text = refl }

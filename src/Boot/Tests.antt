-- ===== src/Boot/Tests.antt =====
-- The theorems on arch/x86_64/boot.c and kernel/kernel.c at a machine that the loader leaves.
use feudos.Prelude.{◌≡◌, refl, some, [], arith, Yields}
use feudos.Vga.Sample.{small, small-Usable}
use feudos.Pic.Sample.{first, second, chips, chips-ReadsMasks}
use feudos.Serial.{serial_init}
use feudos.Init.{Machine}
use feudos.Paging.{Memory}
use feudos.Paging.Walk.{translate}
use feudos.Boot.{Requests, running, start, start_on}
use feudos.Boot.Guards.{Decided, start-Decided}
use feudos.Boot.Sample.{left, left-IsFit, address, hhdm, layout-Loaded, tables, left-Tables}
use feudos.Boot.Running.{Greeted, start_on-Greeted}

-- Every answer but the framebuffers.
abbrev blind : Requests
blind = record { revision_left = 0; hhdm = some hhdm; kaddr = some address; framebuffers = some [] }

start-Decided_example : Decided chips left blind (start chips left blind)
start-Decided_example = start-Decided chips left blind

start_on-Greeted_example :
    Yields
      (λ b.
        (m : Machine) × (memory : Memory) × (b ≡ running m memory)
        × Greeted first second small (record left { ports = serial_init [] }) m
        × (translate memory.words 1 0xFFFF8000000B8000 ≡ some 0xB8000))
      (start_on chips left hhdm address small)
start_on-Greeted_example =
    start_on-Greeted chips first second chips-ReadsMasks (omega arith) (omega arith) left hhdm
      address small 0x205 1 tables small-Usable left-IsFit (refl, refl) layout-Loaded refl
      (omega arith) left-Tables (omega arith)

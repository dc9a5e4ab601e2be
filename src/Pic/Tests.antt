-- ===== src/Pic/Tests.antt =====
-- The theorem on `pit_init` of arch/x86_64/pic.c at the frequency of the kernel.
use feudos.Prelude.{true, Yields, ◌≡◌, refl, some, [], ◌∷◌, arith}
use feudos.Io.{Trace, Device}
use feudos.Pic.{pit_init}
use feudos.Io.{wrote}
use feudos.Pic.Pit.{Pit, Beats, pit, pit_init-Beats}

-- The divisor for 100 interrupts a second.
pit_init_100 : pit_init 100 [] ≡ some (wrote 0x40 0x2E ∷ wrote 0x40 0x9B ∷ wrote 0x43 0x36 ∷ [])
unfolding pit_init feudos.Io.outb
pit_init_100 = refl

-- The timer chip at power on, which waits for a high half.
abbrev cold : Pit
cold = record { mode = 0; decimal = true; low = 1; high = 2; high_next = true }

pit_init-Beats_example : Yields (λ t. Beats 100 (pit cold t)) (pit_init 100 [])
pit_init-Beats_example = pit_init-Beats cold 100 [] (omega arith) (omega arith)

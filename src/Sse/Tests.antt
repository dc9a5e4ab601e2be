-- ===== src/Sse/Tests.antt =====
-- The theorem on arch/x86_64/sse.c at a processor.
use feudos.Prelude.{◌≡◌, refl, arith}
use feudos.Cpu.Sample.{loaded}
use feudos.Sse.{init_sse}
use feudos.Sse.Enabled.{IsEnabled, init_sse-IsEnabled}

cr0_example : (init_sse loaded).cr0 ≡ 0x80010013
unfolding init_sse
cr0_example = refl

init_sse-IsEnabled_example :
    IsEnabled 0x80010015 0x20 (init_sse loaded)
    × (init_sse loaded ≡ record loaded {
      cr0 = (init_sse loaded).cr0;
      cr4 = (init_sse loaded).cr4;
      fpu_reset = (init_sse loaded).fpu_reset;
    })
init_sse-IsEnabled_example = init_sse-IsEnabled loaded (omega arith)

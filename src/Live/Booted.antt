-- ===== src/Live/Booted.antt =====
-- From the boot loader's answers to the commands of the shell: `_start` of arch/x86_64/boot.c, and
-- the loop of `ksh_run` on the interrupts that come.
use feudos.Prelude.{
  ℕ, ◌+◌, ◌*◌, ◌%◌, ◌<◌, ◌≡◌, ◌∙◌, ap, refl, sym, some, List, ◌∷◌, ◌++◌, arith, Yields,
}
use feudos.Io.{Device}
use feudos.Serial.{serial_init}
use feudos.Vga.{Framebuffer}
use feudos.Vga.Setup.{Usable}
use feudos.Pic.Chips.{Chip, ReadsMasks}
use feudos.Pic.Masks.{Ready}
use feudos.Keyboard.{Keyboard}
use feudos.Keyboard.Edit.{typed}
use feudos.Idt.{Kernel}
use feudos.Init.{Machine}
use feudos.Paging.{Memory, u64}
use feudos.Paging.Walk.{Tables, Distinct, upper}
use feudos.Paging.Table
use feudos.Ksh.{Cpuid}
use feudos.Ksh.Outcome.{Described}
use feudos.Ksh.Session.{transcript}
use feudos.Boot.{Loaded, KernelAddress, Requests, layout, running, guarded, start, start_on}
use feudos.Boot.Running.{Greeted, IsFit, start_on-Greeted}
use feudos.Live.{ksh_round}
use feudos.Live.Turns.{Ran}
use feudos.Live.Session.{Typing, Session, Session-Ran}

-- Every answer, with the first framebuffer.
abbrev pub answered : ℕ → KernelAddress → Framebuffer → List Framebuffer → Requests
answered hhdm k g gs = record {
  revision_left = 0;
  hhdm = some hhdm;
  kaddr = some k;
  framebuffers = some (g ∷ gs);
}

pub start-answered :
    (dev : Device) (l : Loaded) (hhdm : ℕ) (k : KernelAddress) (g : Framebuffer)
    (gs : List Framebuffer)
    → start dev l (answered hhdm k g gs) ≡ start_on dev l hhdm k g
unfolding start guarded
start-answered dev l hhdm k g gs = refl

module _ (dev : Device) (start1 start2 : Chip) (reads : ReadsMasks dev start1 start2)
    (byte1 : start1.mask < 256) (byte2 : start2.mask < 256) (id : Cpuid) (vendor brand : List ℕ)
    (described : Described id vendor brand) where
  -- On a usable framebuffer, a machine that is fit, controllers that are ready and read as their masks,
  -- which are bytes, a loader's map that begins at a page and whose tables are as `map_page` needs them,
  -- with a processor that describes itself in terminated texts: where `_start` on every answer of the
  -- loader has set up a machine, it is greeted as `kernel_main` says. After any rounds of the shell on
  -- it, each with interrupts whose keys make a line of at most 126 bytes and neither take back earlier
  -- text nor fill the buffer, the buffer holds these lines one after the other. A further such round,
  -- on the interrupts that come, ends without a fault and has run exactly the line typed.
  pub start-Session :
      (l : Loaded) (hhdm : ℕ) (ka : KernelAddress) (g : Framebuffer) (gs : List Framebuffer)
      (first top : ℕ) (fs : List ℕ) (m : Machine) (memory : Memory) (k : Kernel)
      (lns : List (List ℕ)) (ln : List ℕ) (keys : Typing dev ln k)
      → Usable g
      → IsFit l
      → Ready start1 start2 l.ports
      → Table.Loaded (layout l hhdm ka) first
      → l.cr3 ≡ top * 4096
      → hhdm % 4096 ≡ 0
      → Tables l.memory.words
          (first + l.memory.used)
          (first + 4)
          top
          (upper (u64 (hhdm + 0xB8000)))
          fs
      → Distinct fs
      → start dev l (answered hhdm ka g gs) ≡ some (running m memory)
      → Session dev id m.kernel lns k
      → Greeted start1 start2 g (record l { ports = serial_init l.ports }) m
        × (typed k.keyboard.kbd_buf ≡ transcript lns)
        × Yields
            (Ran dev id ln keys.characters keys.wakes k)
            (ksh_round dev id keys.buffer keys.wakes k)
  start-Session l hhdm ka g gs first top fs m memory k lns ln keys u f r loaded ec aligned t d run
        rounds =
      let (b, eb, (m', memory', same, greeted, _)) =
        start_on-Greeted dev start1 start2 reads byte1 byte2 l hhdm ka g first top fs u f r loaded
          ec aligned t d in
      let em : m' ≡ m = cc (eb, same, sym (start-answered dev l hhdm ka g gs) ∙ run) in
      let hello : Greeted start1 start2 g (record l { ports = serial_init l.ports }) m =
        rw em at greeted in
      let (board, ticks) = hello.set_up.others in
      let (text, next) =
        Session-Ran dev id vendor brand described m.kernel k lns ln keys hello.set_up.sound
          (omega (arith, ticks)) rounds in
      (hello, text ∙ ap (λ (b : Keyboard). typed b.kbd_buf ++ transcript lns) board, next)

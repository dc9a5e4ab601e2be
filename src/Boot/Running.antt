-- ===== src/Boot/Running.antt =====
-- arch/x86_64/boot.c and kernel/kernel.c: the machine that runs the shell.
use feudos.Prelude.{
  ℕ, ap, sym, ◌∙◌, ◌+◌, ◌*◌, ◌%◌, ◌^◌, ◌<◌, ◌≡◌, refl, some, List, length, arith, Yields,
  Yields-bind,
}
use feudos.Io.{Trace, Device, outb}
use feudos.Serial.{serial_init}
use feudos.Vga.{Screen, Framebuffer, vga_init, vga_clear_screen, bg_rgb}
use feudos.Vga.Render.{Filled}
use feudos.Vga.Blank.{vga_clear_screen-blank}
use feudos.Vga.Renders.{Renders}
use feudos.Vga.Terminal.{blank}
use feudos.Vga.Setup.{Usable, vga_init-IsValid}
use feudos.Printf.Format.{Event, replay, format, directive_events}
use feudos.Printf.{next_text}
use feudos.Printf.Prints.{Prints, literal}
use feudos.Str.Compare.{c_text}
use feudos.Log.Events.{klog-Prints}
use feudos.Pic.Chips.{Chip, ReadsMasks}
use feudos.Pic.Masks.{Ready}
use feudos.Ksh.{def_text_col}
use feudos.Init.{Machine}
use feudos.Init.Started.{Started, arch_init-Started}
use feudos.Paging.{Memory, u64}
use feudos.Paging.Walk.{Tables, Distinct, translate, upper}
use feudos.Paging.Table
use feudos.Paging.Map.{map_page-translate}
use feudos.Boot.{
  Loaded, KernelAddress, running, layout, at_banner, log_banner, kernel_main, start_on,
}

abbrev pub banner : List Event
banner = literal "Booting up FeudOS kernel v0.0.7 for x86_64 ...\n"

log_banner-Prints : Prints log_banner banner
unfolding log_banner format directive_events next_text c_text
log_banner-Prints = klog-Prints _ _ _ _ refl

-- The machine `m` after the screen was cleared, the banner shown, and the machine set up.
pub record Greeted (start1 start2 : Chip) (g : Framebuffer) (l : Loaded) (m : Machine)
    : Type 0 where
  pub clear : Screen
  pub shown : Screen
  pub cleared : vga_clear_screen def_text_col (vga_init l.font g) ≡ some clear
  pub black : Filled (bg_rgb def_text_col) (vga_init l.font g) clear
  pub empty : Renders clear (blank (bg_rgb def_text_col))
  pub greeted : replay banner clear ≡ some shown
  pub set_up : Started l.image start1 start2 (at_banner l shown) m

-- What the set-up needs of the machine that the loader leaves.
pub record IsFit (l : Loaded) : Type 0 where
  pub descriptors : length l.gdt ≡ 3
  pub gates : length l.idt ≡ 256
  pub routines : (k : ℕ) → l.image.isr k < 2 ^ 64
  pub cr0_small : l.cpu.cr0 < 2 ^ 64

module _ (dev : Device) (start1 start2 : Chip) (reads : ReadsMasks dev start1 start2)
    (byte1 : start1.mask < 256) (byte2 : start2.mask < 256) where
  -- On a usable framebuffer, a machine that is fit, and controllers that are ready and read as
  -- their masks, which are bytes, `kernel_main` reaches the shell without a fault: it has given
  -- every pixel the background colour, shown the banner at the origin, and set up the machine.
  pub kernel_main-Greeted :
      (g : Framebuffer) (l : Loaded)
      → Usable g
      → IsFit l
      → Ready start1 start2 l.ports
      → Yields (Greeted start1 start2 g l) (kernel_main dev g l)
  unfolding kernel_main
  kernel_main-Greeted g l u f r =
      let start = vga_init-IsValid l.font g u in
      let (c, ec, (vc, fc, rc)) = vga_clear_screen-blank def_text_col (vga_init l.font g) start in
      let (run, (t, et, vt)) = log_banner-Prints c vc in
      let (m, em, s) =
        arch_init-Started l.image dev start1 start2 reads byte1 byte2 (at_banner l t)
          (record { screen_valid = vt; buffer_valid = record { size = refl; room = omega arith } })
          r f.descriptors f.gates f.routines f.cr0_small in
      rw (ec, et, em)
        (
          _,
          refl,
          record {
            clear = c;
            shown = t;
            cleared = ec;
            black = fc;
            empty = rc;
            greeted = sym run ∙ et;
            set_up = s;
          },
        )

  -- The serial port is none of the controllers' ports.
  serial_init-Ready : (tr : Trace) → Ready start1 start2 tr → Ready start1 start2 (serial_init tr)
  unfolding serial_init outb
  serial_init-Ready tr r = r

  -- Where moreover the tables of the loader's map are as `map_page` needs them, and the map begins
  -- at a page, `_start` behind its guards reaches the shell without a fault, on the same machine
  -- with the serial port set up, and the processor translates the address of the text screen in
  -- the loader's map to 0xB8000.
  pub start_on-Greeted :
      (l : Loaded) (hhdm : ℕ) (k : KernelAddress) (g : Framebuffer) (first top : ℕ) (fs : List ℕ)
      → Usable g
      → IsFit l
      → Ready start1 start2 l.ports
      → Table.Loaded (layout l hhdm k) first
      → l.cr3 ≡ top * 4096
      → hhdm % 4096 ≡ 0
      → Tables l.memory.words
          (first + l.memory.used)
          (first + 4)
          top
          (upper (u64 (hhdm + 0xB8000)))
          fs
      → Distinct fs
      → Yields
          (λ b.
            (m : Machine) × (memory : Memory) × (b ≡ running m memory)
            × Greeted start1 start2 g (record l { ports = serial_init l.ports }) m
            × (translate memory.words top (u64 (hhdm + 0xB8000)) ≡ some 0xB8000))
          (start_on dev l hhdm k g)
  unfolding start_on
  start_on-Greeted l hhdm k g first top fs u f r loaded ec aligned t d =
      let virt = u64 (hhdm + 0xB8000) in
      let low : virt % 4096 ≡ 0 = omega (arith, aligned) in
      Yields-bind _ _
        (map_page-translate (layout l hhdm k) first top virt 0xB8000 fs l.memory loaded ec
          (omega arith) t d)
        λ memory (to, _).
          Yields-bind _ _
            (kernel_main-Greeted g (record l { ports = serial_init l.ports }) u
              (record {
                descriptors = f.descriptors;
                gates = f.gates;
                routines = f.routines;
                cr0_small = f.cr0_small;
              })
              (serial_init-Ready l.ports r))
            λ m greeted. (_, refl, (m, memory, refl, greeted, to ∙ ap some (omega (arith, low))))

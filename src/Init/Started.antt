-- ===== src/Init/Started.antt =====
-- arch/x86_64/init.c, `arch_init`: the machine that it leaves.
use feudos.Prelude.{
  ℕ, ◌/◌, ◌%◌, ◌^◌, ◌<◌, ◌≡◌, ◌∙◌, refl, ap, true, not, ◌&&◌, some, List, ◌==◌, length, get_elem?,
  Yields,
}
use feudos.Io.{Device}
use feudos.Printf.{plain}
use feudos.Printf.Format.{Event, replay, format}
use feudos.Cpu.{Cpu, lidt, sti}
use feudos.Sse.{init_sse}
use feudos.Gdt.Segments.{IsLoaded, IsCode, Selects, gdt_init-IsLoaded}
use feudos.Sse.Enabled.{IsEnabled, init_sse-IsEnabled}
use feudos.Idt.Gates.{target, idt_init-Set, gate-Leads}
use feudos.Idt.Irq.{Sound}
use feudos.Idt.{IdtEntry, gate}
use feudos.Pic.Chips.{Chip, chip1, chip2, masked, ReadsMasks}
use feudos.Pic.Masks.{Ready}
use feudos.Pic.Setup.{IsSetUp}
use feudos.Pic.Pit.{Pit, Beats, pit}
use feudos.Timer.{timer_freq}
use feudos.Init.Lines.{init_pic-masked, init_pic-programs}
use feudos.Init.{Image, Machine, idt_ptr, arch_init}
use feudos.Init.Messages.{log_info-Told, messages, replay-both}

-- The processor finds at the vector an interrupt gate to its routine, in a 64-bit code segment.
abbrev pub Delivers : Image → List ℕ → List IdtEntry → Cpu → ℕ → Type 0
Delivers im gdt idt cpu k =
    (e : IdtEntry) × (get_elem? idt k ≡ some e)
    × (target e ≡ im.isr k)
    × (e.type_attr ≡ 0x8E)
    × Selects IsCode gdt cpu e.selector

-- The machine `m'` after `arch_init` on `m`.
pub record Started (im : Image) (start1 start2 : Chip) (m m' : Machine) : Type 0 where
  pub segments : IsLoaded im.gdt_at m'.gdt m'.cpu
  pub table : m'.cpu.idtr ≡ record { limit = 4095; base = im.idt_at }
  pub gates : (k : ℕ) → k < 48 → Delivers im m'.gdt m'.idt m'.cpu k
  pub enabled : m'.cpu.interrupts ≡ true
  pub ready : Ready start1 start2 m'.kernel.ports
  pub lines :
      (i : ℕ)
      → i < 16
      → masked (chip1 start1 m'.kernel.ports) (chip2 start2 m'.kernel.ports) i
        ≡ not (i == 1)
          && (not (i == 0) && masked (chip1 start1 m.kernel.ports) (chip2 start2 m.kernel.ports) i)
  pub vectors :
      IsSetUp (chip1 start1 m'.kernel.ports) 0x20 4 (chip1 start1 m'.kernel.ports).mask
      × IsSetUp (chip2 start2 m'.kernel.ports) 0x28 2 (chip2 start2 m'.kernel.ports).mask
  pub timer : (start : Pit) → Beats timer_freq (pit start m'.kernel.ports)
  pub sse : IsEnabled m.cpu.cr0 m.cpu.cr4 m'.cpu
  pub sound : Sound m'.kernel
  pub shown : replay messages m.kernel.screen ≡ some m'.kernel.screen
  pub others : (m'.kernel.keyboard ≡ m.kernel.keyboard) × (m'.kernel.ticks ≡ m.kernel.ticks)

-- The processor after the loads of `arch_init`, from the one that `gdt_init` leaves.
abbrev set_up : Image → List IdtEntry → Cpu → Cpu
set_up im idt c = init_sse (sti (lidt (idt_ptr im.idt_at idt) c))

set_up-IsEnabled :
    (im : Image) (idt : List IdtEntry) (c : Cpu) (cr0 cr4 : ℕ)
    → c.cr0 ≡ cr0
    → c.cr4 ≡ cr4
    → cr0 < 2 ^ 64
    → IsEnabled cr0 cr4 (set_up im idt c)
set_up-IsEnabled im idt c cr0 cr4 e0 e4 h =
    let r : IsEnabled c.cr0 c.cr4 (set_up im idt c) =
      (init_sse-IsEnabled (sti (lidt (idt_ptr im.idt_at idt) c)) (rw e0 h)).0 in
    record {
      cr0_bits = r.cr0_bits;
      cr0_low = r.cr0_low ∙ ap (λ x. x % 2) e0;
      cr0_high = r.cr0_high ∙ ap (λ x. x / 2 ^ 3) e0;
      cr4_bits = r.cr4_bits;
      cr4_low = r.cr4_low ∙ ap (λ x. x % 2 ^ 9) e4;
      cr4_high = r.cr4_high ∙ ap (λ x. x / 2 ^ 11) e4;
      fpu = r.fpu;
    }

set_up-IsLoaded :
    (im : Image) (gdt : List ℕ) (idt : List IdtEntry) (c : Cpu)
    → IsLoaded im.gdt_at gdt c
    → IsLoaded im.gdt_at gdt (set_up im idt c)
unfolding init_sse
set_up-IsLoaded im gdt idt c l = record {
  table = l.table;
  code = l.code;
  data_ds = l.data_ds;
  data_es = l.data_es;
  data_fs = l.data_fs;
  data_gs = l.data_gs;
  stack = l.stack;
}

-- A gate names the selector of the code segment.
set_up-Delivers :
    (im : Image) (gdt : List ℕ) (idt : List IdtEntry) (c : Cpu) (k : ℕ)
    → IsLoaded im.gdt_at gdt c
    → c.cs ≡ 0x08
    → im.isr k < 2 ^ 64
    → get_elem? idt k ≡ some (gate (im.isr k))
    → Delivers im gdt idt (set_up im idt c) k
unfolding init_sse
set_up-Delivers im gdt idt c k l sel small e =
    let (entry, ee, to, selector, kind) = gate-Leads im.isr idt k small e in
    let code : Selects IsCode gdt c 0x08 = rw sel at l.code in
    (entry, ee, to, kind, rw selector code)

module _ (im : Image) (dev : Device) (start1 start2 : Chip) (reads : ReadsMasks dev start1 start2)
    (byte1 : start1.mask < 256) (byte2 : start2.mask < 256) where
  -- On a sound kernel, tables of 3 and of 256 entries, routines at 64-bit addresses, a 64-bit cr0,
  -- and controllers that are ready and read as their masks, which are bytes, `arch_init` does not
  -- fault. The code and data segments are then loaded; each of the vectors 0 to 47 has an interrupt
  -- gate to its routine in the loaded 64-bit code segment; the controllers deliver their lines at the
  -- vectors 0x20 and 0x28, those of the timer and the keyboard are unmasked, the others as before;
  -- the timer interrupts TIMER_FREQ times in 1193180 cycles, to within a cycle each; interrupts and
  -- SSE are enabled; the five messages have been shown, and the kernel is sound.
  pub arch_init-Started :
      (m : Machine)
      → Sound m.kernel
      → Ready start1 start2 m.kernel.ports
      → length m.gdt ≡ 3
      → length m.idt ≡ 256
      → ((k : ℕ) → im.isr k < 2 ^ 64)
      → m.cpu.cr0 < 2 ^ 64
      → Yields (Started im start1 start2 m) (arch_init im dev m)
  unfolding arch_init format feudos.Printf.Format.directive_events
  arch_init-Started m v r hg hi addresses small =
      let k = m.kernel in
      let ((gdt, cpu), eg, (seg, null, sel, same)) = gdt_init-IsLoaded im.gdt_at m.gdt m.cpu hg in
      let same0 : cpu.cr0 ≡ m.cpu.cr0 = ap (λ (c : Cpu). c.cr0) same in
      let same4 : cpu.cr4 ≡ m.cpu.cr4 = ap (λ (c : Cpu). c.cr4) same in
      let m1 : Machine = record m { gdt = gdt; cpu = cpu } in
      let (t1, e1, v1, s1) = log_info-Told "Initialized GDT.\n" m1 refl v.screen_valid in
      let (idt, ei, (size, done, rest)) = idt_init-Set im.isr m.idt hi in
      let m2 : Machine = record m1 {
        idt = idt;
        cpu = lidt (idt_ptr im.idt_at idt) cpu;
        kernel = record k { screen = t1 };
      } in
      let (t2, e2, v2, s2) = log_info-Told "Initialized IDT.\n" m2 refl v1 in
      let (ports, ep, (ready, lines)) =
        init_pic-masked dev start1 start2 reads byte1 byte2 k.ports r in
      let (ports', ep', (first, second, beats)) = init_pic-programs dev k.ports in
      let once : ports' ≡ ports = cc (ep, ep') in
      let m3 : Machine = record m2 { kernel = record k { screen = t2; ports = ports } } in
      let (t3, e3, v3, s3) = log_info-Told "PIC initialization done.\n" m3 refl v2 in
      let m4 : Machine = record m3 {
        cpu = sti m2.cpu;
        kernel = record k { screen = t3; ports = ports };
      } in
      let (t4, e4, v4, s4) = log_info-Told "Interrupts enabled.\n" m4 refl v3 in
      let m5 : Machine = record m4 {
        cpu = init_sse m4.cpu;
        kernel = record k { screen = t4; ports = ports };
      } in
      let (t5, e5, v5, s5) = log_info-Told "SSE enabled.\n" m5 refl v4 in
      rw (eg, e1, ei, e2, ep, e3, e4, e5)
        (
          _,
          refl,
          record {
            segments = set_up-IsLoaded im gdt idt cpu seg;
            table = (unfold init_sse in rw size refl);
            gates = λ i h. set_up-Delivers im gdt idt cpu i seg sel (addresses i) (done i h);
            enabled = unfold init_sse in refl;
            ready = ready;
            lines = lines;
            vectors = rw (← once) (first start1, second start2);
            timer = rw (← once) beats;
            sse = set_up-IsEnabled im idt cpu m.cpu.cr0 m.cpu.cr4 same0 same4 small;
            sound = record { screen_valid = v5; buffer_valid = v.buffer_valid };
            shown =
                replay-both _ _ _ s1
                  (replay-both _ _ _ s2 (replay-both _ _ _ s3 (replay-both _ _ _ s4 s5)));
            others = (refl, refl);
          },
        )

-- ===== src/Init/Tests.antt =====
-- The theorem on arch/x86_64/init.c at controllers that read as their masks.
use feudos.Prelude.{refl, [], ◌∷◌, ◌+◌, ◌*◌, ◌%◌, replicate, length-replicate, arith, Yields}
use feudos.Pic.Sample.{first, second, chips, chips-ReadsMasks}
use feudos.Cpu.Sample.{loaded}
use feudos.Vga.Sample.{fresh, fresh-IsValid}
use feudos.Keyboard
use feudos.Idt.{gate}
use feudos.Init.{Image, Machine, arch_init}
use feudos.Init.Started.{Started, arch_init-Started}

abbrev image : Image
image = record { gdt_at = 0x9000; idt_at = 0xA000; isr = λ k. 0x100000 + 16 * (k % 48) }

abbrev machine : Machine
machine = record {
  cpu = loaded;
  gdt = 0 ∷ 0 ∷ 0 ∷ [];
  idt = replicate 256 (gate 0);
  kernel = record { screen = fresh; keyboard = Keyboard.init; ticks = 0; ports = [] };
}

arch_init-Started_example :
    Yields (Started image first second machine) (arch_init image chips machine)
arch_init-Started_example =
    arch_init-Started image chips first second chips-ReadsMasks (omega arith) (omega arith) machine
      (record {
        screen_valid = fresh-IsValid;
        buffer_valid = record { size = refl; room = omega arith };
      })
      (refl, refl) refl (length-replicate 256 (gate 0)) (λ k. omega arith) (omega arith)

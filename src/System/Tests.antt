-- ===== src/System/Tests.antt =====
-- The theorems on the running kernel at a timer's interrupt and the left shift key.
use feudos.Prelude.{ℕ, true, ◌≡◌, refl, some, [], ◌∷◌, arith, Yields}
use feudos.Io.{Device, got, inb}
use feudos.Vga.Sample.{wrapped, wrapped-IsValid}
use feudos.Pic.{pic_send_eoi}
use feudos.Keyboard
use feudos.Keyboard.{kbd_handle_scancode}
use feudos.Idt.{IdtCtx, Kernel, resumed, timer_irq, keyboard_irq, interrupt_dispatch}
use feudos.Idt.Irq.{Sound}
use feudos.Idt.Dispatch.{Leaves}
use feudos.Vga.{vga_putc, vga_move_cursor}
use feudos.Vga.Valid.{IsValid}
use feudos.Vga.Wide.{newline_below}
use feudos.System.{interrupt, printed, Reach, here, next, Serves, idle, serve}
use feudos.System.Safe.{Reach-Safe}
use feudos.Timer.{timer_tick}

abbrev kernel : Kernel
kernel = record { screen = wrapped; keyboard = Keyboard.init; ticks = 7; ports = [] }

kernel-Sound : Sound kernel
kernel-Sound = record {
  screen_valid = wrapped-IsValid;
  buffer_valid = record { size = refl; room = omega arith };
}

abbrev at : ℕ → IdtCtx
at vector = record { vector = vector; errc = 0; rip = 0x1000; cs = 8; rflags = 0x202 }

abbrev left_shift : Device
left_shift tr port = 0x2A

abbrev ticked_once : Kernel
ticked_once = record kernel { ticks = 8; ports = pic_send_eoi 0 [] }

abbrev shift_pressed : Kernel
shift_pressed = record ticked_once {
  keyboard = record Keyboard.init { shift_held = true };
  ports = pic_send_eoi 1 (got 0x60 0x2A ∷ pic_send_eoi 0 []);
}

tick : interrupt_dispatch left_shift 0 (at 0x20) kernel ≡ some (resumed ticked_once)
unfolding interrupt_dispatch timer_irq timer_tick
tick = refl

press : interrupt_dispatch left_shift 0 (at 0x21) ticked_once ≡ some (resumed shift_pressed)
unfolding interrupt_dispatch keyboard_irq inb kbd_handle_scancode
press = refl

-- The program prints a newline after the two interrupts.
abbrev below : Kernel
below = record shift_pressed { screen = vga_move_cursor 0 2 wrapped }

newline : vga_putc b'\n' 15 wrapped ≡ some below.screen
newline = newline_below wrapped 15 (omega arith) (omega arith)

reached : Reach left_shift kernel below
reached =
    next (next (next here (interrupt 0 (at 0x20) tick)) (interrupt 0 (at 0x21) press))
      (printed b'\n' 15 newline)

Reach-Safe_example :
    Sound below
    × ((cr2 : ℕ) (ctx : IdtCtx)
        → Yields (Leaves Sound) (interrupt_dispatch left_shift cr2 ctx below))
    × ((c color : ℕ) → Yields IsValid (vga_putc c color below.screen))
Reach-Safe_example = Reach-Safe left_shift kernel-Sound reached

served : Serves left_shift kernel (0x2A ∷ []) 1 2 shift_pressed
served = serve 0 (at 0x20) (omega arith) tick (serve 0 (at 0x21) (omega arith) press idle)

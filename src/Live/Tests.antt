-- ===== src/Live/Tests.antt =====
-- The theorems on the running kernel at keyboards that answer with given scancodes.
use feudos.Prelude.{
  ℕ, ◌+◌, ◌∙◌, ap, ◌≡◌, refl, some, List, [], ◌∷◌, ◌++◌, ◌==◌, if◌then◌else◌, replicate, get_or,
  arith, Yields,
}
use feudos.Str.{codes}
use feudos.Io.{Device, Trace, Access, got, wrote, inb, byte}
use feudos.Vga.Sample.{small, small-Usable, fresh, fresh-IsValid}
use feudos.Serial.{serial_init}
use feudos.Pic.Chips.{ReadsMasks}
use feudos.Pic.Sample.{first, second, chips}
use feudos.Timer
use feudos.Keyboard
use feudos.Keyboard.Layout.{key_char}
use feudos.Keyboard.Edit.{typed}
use feudos.Keyboard.Scancode.{entered, shift_after}
use feudos.Keyboard.Keys.{keyed, shifted}
use feudos.Keyboard.Editor.{edits, edit_line, is_complete}
use feudos.Keyboard.Readline.{line_of_keys}
use feudos.Idt.{Kernel}
use feudos.Idt.Irq.{Sound}
use feudos.Init.{Machine}
use feudos.Paging.{Memory}
use feudos.Ksh.Session.{transcript}
use feudos.Boot.{running, start}
use feudos.Boot.Running.{Greeted, start_on-Greeted}
use feudos.Boot.Sample.{left, left-IsFit, address, hhdm, layout-Loaded, tables, left-Tables}
use feudos.Ksh.Sample.{intel, intel-Described}
use feudos.Live.{Interrupt, kbd_readline, sleep_ticks, ksh_round}
use feudos.Live.Delivery.{scancodes, all_ports}
use feudos.Live.Lines.{wake_scancodes, Passed, Agrees, kbd_readline-Agrees}
use feudos.Live.Sleeping.{Sleeps, sleep_ticks-Sleeps}
use feudos.Live.Exceptions.{Rests, sleep_ticks-Rests}
use feudos.Live.Turns.{Ran}
use feudos.Live.Session.{Typing, opened, Session-Ran}
use feudos.Live.Booted.{answered, start-answered, start-Session}

abbrev irq : ℕ → Interrupt
irq vector = record {
  cr2 = 0;
  ctx = record { vector = vector; errc = 0; rip = 0x1000; cs = 8; rflags = 0x202 };
}

-- How often the keyboard has been read.
abbrev keys_read : Trace → ℕ
keys_read [] = 0
keys_read (got port v ∷ tr) = if port == 0x60 then 1 + keys_read tr else keys_read tr
keys_read (wrote port v ∷ tr) = keys_read tr

-- A keyboard whose keys are pressed in this order, on the controllers.
abbrev typist : List ℕ → Device
typist keys tr port = if port == 0x60 then get_or keys (keys_read tr) 0 else chips tr port

abbrev kernel : Kernel
kernel = record { screen = fresh; keyboard = Keyboard.init; ticks = 7; ports = [] }

kernel-Sound : Sound kernel
kernel-Sound = record {
  screen_valid = fresh-IsValid;
  buffer_valid = record { size = refl; room = omega arith };
}

-- The keys of "help" and the return key, with the timer's interrupts between.
abbrev help_keys : List ℕ
help_keys = 0x23 ∷ 0x12 ∷ 0x26 ∷ 0x19 ∷ 0x1C ∷ []

abbrev help_wakes : List (List Interrupt)
help_wakes =
    (irq 0x21 ∷ [])
    ∷ (irq 0x20 ∷ irq 0x21 ∷ [])
    ∷ (irq 0x20 ∷ [])
    ∷ (irq 0x21 ∷ irq 0x21 ∷ [])
    ∷ (irq 0x21 ∷ irq 0x20 ∷ [])
    ∷ []

kbd_readline-Agrees_example :
    Agrees
      (Passed (typist help_keys) help_wakes kernel)
      (kbd_readline (typist help_keys) (replicate 128 0) 128 help_wakes kernel)
      (Keyboard.kbd_readline
        (replicate 128 0)
        128
        (wake_scancodes (typist help_keys) help_wakes [])
        Keyboard.init
        fresh)
kbd_readline-Agrees_example =
    kbd_readline-Agrees (typist help_keys) (replicate 128 0) 128 help_wakes kernel (omega arith)

sleep_ticks-Sleeps_example :
    Yields
      (λ r. Sleeps r (Timer.sleep_ticks 2 (0 ∷ 1 ∷ 1 ∷ 0 ∷ 1 ∷ []) 7))
      (sleep_ticks (typist help_keys) 2 help_wakes kernel)
unfolding feudos.Live.Delivery.ticks_in
sleep_ticks-Sleeps_example =
    sleep_ticks-Sleeps (typist help_keys) 2 help_wakes kernel kernel-Sound (omega arith)

-- A breakpoint, a tick, and a page fault.
abbrev fault_wakes : List (List Interrupt)
fault_wakes = (irq 0x03 ∷ irq 0x20 ∷ []) ∷ (irq 0x0E ∷ []) ∷ []

sleep_ticks-Rests_example : Yields (Rests 9) (sleep_ticks (typist []) 2 fault_wakes kernel)
sleep_ticks-Rests_example = sleep_ticks-Rests (typist []) 2 fault_wakes kernel kernel-Sound

-- The round that reads "help".
help_typed : Typing (typist help_keys) (codes "help") kernel
unfolding wake_scancodes scancodes all_ports line_of_keys keyed shifted entered shift_after key_char
    edits edit_line is_complete feudos.Pic.pic_send_eoi feudos.Io.outb
help_typed = record {
  buffer = replicate 128 0;
  sized = refl;
  wakes = help_wakes;
  lines = omega arith;
  characters = codes "help" ++ 10 ∷ [];
  short = omega arith;
  completes = refl;
}

Session-Ran_example :
    (typed Keyboard.init.kbd_buf ≡ typed Keyboard.init.kbd_buf ++ transcript [])
    × Yields
        (Ran (typist help_keys) intel (codes "help") help_typed.characters help_typed.wakes kernel)
        (ksh_round (typist help_keys) intel help_typed.buffer help_typed.wakes kernel)
Session-Ran_example =
    Session-Ran (typist help_keys) intel (codes "GenuineIntel") (codes "CPU") intel-Described kernel
      kernel [] (codes "help") help_typed kernel-Sound (omega arith) opened

-- A machine whose keyboard is at the return key, after `_start`.
abbrev idle_keys : Device
idle_keys tr port = if port == 0x60 then 0x1C else chips tr port

idle_keys-ReadsMasks : ReadsMasks idle_keys first second
idle_keys-ReadsMasks = record { reads1 = λ tr a. refl; reads2 = λ tr a. refl }

booted :
    (m : Machine) × (memory : Memory) × (start idle_keys left (answered hhdm address small [])
      ≡ some (running m memory))
    × Greeted first second small (record left { ports = serial_init [] }) m
booted =
    let (b, eb, (m, memory, same, greeted, _)) =
      start_on-Greeted idle_keys first second idle_keys-ReadsMasks (omega arith) (omega arith) left
        hhdm address small 0x205 1 tables small-Usable left-IsFit (refl, refl) layout-Loaded refl
        (omega arith) left-Tables (omega arith) in
    (m, memory, start-answered idle_keys left hhdm address small [] ∙ eb ∙ ap some same, greeted)

-- An empty line, typed into an empty buffer.
return_typed : (k : Kernel) → k.keyboard ≡ Keyboard.init → Typing idle_keys [] k
unfolding wake_scancodes scancodes all_ports line_of_keys keyed shifted entered shift_after key_char
    edits edit_line is_complete
return_typed k e = record {
  buffer = replicate 128 0;
  sized = refl;
  wakes = (irq 0x20 ∷ []) ∷ (irq 0x21 ∷ []) ∷ [];
  lines = omega arith;
  characters = 10 ∷ [];
  short = omega arith;
  completes = rw e refl;
}

abbrev after_boot : Kernel
after_boot = booted.0.kernel

abbrev first_line : Typing idle_keys [] after_boot
first_line = return_typed after_boot booted.3.set_up.others.0

start-Session_example :
    Greeted first second small (record left { ports = serial_init [] }) booted.0
    × (typed after_boot.keyboard.kbd_buf ≡ transcript [])
    × Yields
        (Ran idle_keys intel [] first_line.characters first_line.wakes after_boot)
        (ksh_round idle_keys intel first_line.buffer first_line.wakes after_boot)
start-Session_example =
    start-Session idle_keys first second idle_keys-ReadsMasks (omega arith) (omega arith) intel
      (codes "GenuineIntel") (codes "CPU") intel-Described left hhdm address small [] 0x205 1 tables
      booted.0 booted.1 after_boot [] [] first_line small-Usable left-IsFit (refl, refl)
      layout-Loaded refl (omega arith) left-Tables (omega arith) booted.2 opened

-- ===== src/Lib.antt =====
-- A verification library for FeudOS, an x86_64 kernel in C.
--
-- The program. `_start` (arch/x86_64/boot.c) takes the boot loader's framebuffer and calls
-- `kernel_main` (kernel/kernel.c), which sets up the text screen (kernel/vga.c) and the processor
-- (arch/x86_64/init.c) and runs the shell (kernel/ksh/). Interrupts reach `interrupt_dispatch`
-- (arch/x86_64/idt.c), which counts timer ticks and hands scancodes to kernel/keyboard.c. All
-- output goes through `kvprintf` and `vga_putc` of kernel/vga.c, and util/ holds the string, copy
-- and digit helpers that the others call.
--
-- The files.
--   Prelude, Prelude/: numbers, tests, lists as C arrays, and chains of steps that may fault.
--   Str, Str/: util/str.c, util/memops.c and util/ascii.c, each function under its C name.
--   Vga, Vga/: kernel/vga.c up to `vga_print`. The static variables and the framebuffer are the
--     record `Screen`; each function takes and returns it. Vga/Terminal is a terminal of cells,
--     without pixels, and Vga/Renders says that a screen shows it. Vga/Palette has the sixteen text
--     colours by their bits. Vga/Color: include/util/vga_colors.h.
--   Printf, Printf/: kernel/vga.c from `kprint_uint` on, with `kvprintf` as a loop over the bytes
--     of the format. Printf/Format says what a format prints without a screen, and Printf/Kinds
--     which kinds of arguments it demands.
--   Keyboard, Keyboard/: kernel/keyboard.c and include/kernel/keyboard.h. The handler takes the
--     screen too, since it echoes. Keyboard/Layout is the US keyboard, by rows.
--     Keyboard/Whole says what `kbd_readline` does on any keys, and
--     Keyboard/Readline what it does where they make a line behind the earlier text.
--   Timer, Timer/: kernel/timer.c. The state is the counter `ticks`.
--   Io: include/arch/x86_64/io.h. The state is the trace of the accesses to the ports.
--   Pic, Pic/: arch/x86_64/pic.c. Pic/Chips says what the bytes on its ports mean to the two
--     interrupt controllers, and Pic/Pit what they mean to the timer chip.
--   Paging, Paging/: arch/x86_64/paging.c. The state is the physical memory and the count of the
--     tables handed out; Paging/Walk is the processor's walk of the page tables. Paging/Large is
--     about pages of 2^21 bytes; those of 2^30 bytes, and entries with a bit above the address, are
--     left out.
--   Serial, Serial/: arch/x86_64/serial.c, on the same trace; Serial/Uart is the chip behind
--     the ports.
--   Cpu: the registers that the instructions of arch/x86_64/ load.
--   Gdt, Gdt/: arch/x86_64/gdt.c, and Sse, Sse/: arch/x86_64/sse.c.
--   Idt, Idt/: arch/x86_64/idt.c. `Kernel` is the state that the interrupt handlers share.
--   Init, Init/: arch/x86_64/init.c, which runs the set-up of Gdt, Idt, Pic and Sse.
--   Boot, Boot/: `_start` of arch/x86_64/boot.c with its guards, and `kernel_main` of
--     kernel/kernel.c up to the shell.
--   System, System/: the running kernel, with interrupts, and characters printed between them, in any
--     order as a relation of steps.
--   Live, Live/: the functions that wait for interrupts, on the interrupts themselves and the
--     state of Idt: `kbd_readline`, `sleep_ticks` and the rounds of `ksh_run`. Keyboard, Timer and
--     Ksh have them on the scancodes and ticks alone. Live/Exceptions lets exceptions come too, and
--     Live/Booted starts from `_start`.
--   Log, Log/: kernel/log.c, and `kernel_panic` of kernel/kernel.c.
--   Ksh, Ksh/: kernel/ksh/ksh.c and kernel/ksh/handlers.c. `ksh_exec` takes the counter of the
--     timer and the screen; a handler is named by a constructor where the source has a pointer.
--
-- The model. A function that reads or writes arrays returns an Option, and `none` is a fault: an
-- access outside an array, the framebuffer or the font, a C string with no terminator, a variadic
-- argument that is missing or of the other kind. A word of w bits is a number, and the wrap of its
-- arithmetic is written out. A `char` is a byte; where the source compares it as a signed number,
-- the bytes from 128 on count as negative. A pointer into a string is the list of the bytes from
-- it on, or an offset.
--
-- Bounds and fuel. The loop of `kprint_uint` has 65 rounds of fuel, and Printf/Digits shows that
-- its number of digits, 20 at most, suffices. The serial port's wait for an empty transmitter polls
-- as often as its fuel says, and the theorems on it take a bound within which the port is ready. All
-- other loops are recursions on a list or on a count. The functions that wait for interrupts take
-- them as a list, with those that come in each `hlt`: in Keyboard the scancodes that are handled, in
-- Timer the number of the timer's, in Live the interrupts. Where the list ends they still wait. In
-- Live an interrupt comes in a `hlt` only, not while a command runs or prints; in System it may come
-- between two characters, not inside `vga_putc`. The loops of `kernel_panic`
-- and `ksh_run` have no end: the model has the screen at the halt, and one round of the shell.
-- Ksh/Session and Live/Session are any number of rounds, each with any contents of the array `line`
-- at its start.
--
-- What comes from outside. The glyphs of include/font8x8_basic.h (a public-domain table) are the
-- field `font` of a screen, 128 glyphs of 8 rows. The framebuffer is the boot loader's, of `height`
-- rows of `pitch` bytes. What a port answers is a function of the accesses before (`Device`), and
-- `cpuid` is a function of the leaf (`Cpuid`). The boot loader's answers to the requests of
-- arch/x86_64/boot.c and the addresses of the kernel's image, its tables and its interrupt stubs
-- are arguments too (`Requests`, `Image`).
--
-- What is not modelled: the assembly of arch/x86_64/ (the stubs behind the interrupt gates and the
-- reload of the segments), the linker script and the build; include/limine.h beyond the answers
-- that the code reads; the glyphs of the font. `hlt` is a wait for interrupts or the end, `invlpg`
-- has no effect, and no interrupt arrives inside `arch_init` once it has enabled them.
pub mod Prelude
pub mod Str
pub mod Vga
pub mod Printf
pub mod Keyboard
pub mod Timer
pub mod Io
pub mod Pic
pub mod Serial
pub mod Cpu
pub mod Gdt
pub mod Sse
pub mod Paging
pub mod Log
pub mod Ksh
pub mod Idt
pub mod Init
pub mod Boot
pub mod System
pub mod Live

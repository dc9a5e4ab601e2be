-- ===== src/Idt/Messages.antt =====
-- arch/x86_64/idt.c: the messages of the exceptions.
use Prim.Native.String.{String}
use feudos.Prelude.{ℕ, ◌%◌, ◌^◌, ◌≡◌, refl, some, List, [], ◌∷◌, ◌++◌}
use feudos.Printf.{plain, kprintf, kvprintf, next_word}
use feudos.Printf.Numeral.{numeral}
use feudos.Printf.Format.{Event, recolor, format, directive_events, long_events}
use feudos.Printf.Prints.{Prints, Prints-kprintf, Prints-then, shown, literal, joined}
use feudos.Log.{kernel_panic}
use feudos.Idt.{
  IdtCtx, kpanic_dbg, division_by_zero, breakpoint, illegal_instruction, double_fault,
  protection_fault, page_fault, unknown_exception,
}

-- A word in hexadecimal.
abbrev pub hex : ℕ → List Event
hex w = shown (numeral 16 (w % 2 ^ 64))

-- A line with one word in hexadecimal.
abbrev pub field : String → ℕ → List Event
field name w = joined (literal name ∷ hex w ∷ literal "\n" ∷ [])

abbrev pub registers : IdtCtx → List Event
registers ctx =
    field "RIP    = 0x" ctx.rip ++ (field "CS     = 0x" ctx.cs ++ field "RFLAGS = 0x" ctx.rflags)

abbrev pub panic : String → List Event
panic msg = (recolor 4 ∷ literal "Kernel panic!\n\t") ++ literal msg

abbrev pub fault_events : IdtCtx → List Event
fault_events ctx = registers ctx ++ field "General Protection fault; GPF err code: 0x" ctx.errc

abbrev pub page_fault_events : IdtCtx → ℕ → List Event
page_fault_events ctx cr2 =
    registers ctx
    ++ (field "Page Fault accessing 0x" cr2
        ++ (field "Error code (flags): 0x" ctx.errc ++ panic "Page fault.\n"))

abbrev pub unknown_events : IdtCtx → List Event
unknown_events ctx = joined (
    literal "Unknown exception "
    ∷ shown (numeral 10 (ctx.errc % 2 ^ 64))
    ∷ literal " at 0x"
    ∷ hex ctx.rip
    ∷ literal "\n"
    ∷ [])

kpanic_dbg-Prints : (ctx : IdtCtx) → Prints (kpanic_dbg ctx) (registers ctx)
unfolding kpanic_dbg format directive_events next_word
kpanic_dbg-Prints ctx =
    Prints-then _ _ _ _ (Prints-kprintf _ _ (field "RIP    = 0x" ctx.rip) refl) (
      Prints-then _ _ _ _ (Prints-kprintf _ _ (field "CS     = 0x" ctx.cs) refl)
        (Prints-kprintf _ _ (field "RFLAGS = 0x" ctx.rflags) refl))

kernel_panic-Prints :
    (msg : List ℕ) (es : List Event)
    → format plain msg [] ≡ some es
    → Prints (kernel_panic msg []) ((recolor 4 ∷ literal "Kernel panic!\n\t") ++ es)
unfolding kernel_panic format directive_events next_word kprintf kvprintf
kernel_panic-Prints msg es e =
    Prints-then _ _ _ _ (Prints-kprintf _ _ (recolor 4 ∷ literal "Kernel panic!\n\t") refl)
      (Prints-kprintf msg [] es e)

pub division_by_zero-Prints :
    (ctx : IdtCtx)
    → Prints (division_by_zero ctx) (registers ctx ++ panic "Unhandled division by zero.\n")
unfolding division_by_zero format
division_by_zero-Prints ctx =
    Prints-then _ _ _ _ (kpanic_dbg-Prints ctx)
      (kernel_panic-Prints _ (literal "Unhandled division by zero.\n") refl)

pub breakpoint-Prints :
    (ctx : IdtCtx) → Prints (breakpoint ctx) (field "[DEBUG] Reached breakpoint at RIP: 0x" ctx.rip)
unfolding breakpoint format directive_events next_word
breakpoint-Prints ctx = Prints-kprintf _ _ _ refl

pub illegal_instruction-Prints :
    (ctx : IdtCtx)
    → Prints (illegal_instruction ctx) (registers ctx ++ panic "Illegal instruction.")
unfolding illegal_instruction format
illegal_instruction-Prints ctx =
    Prints-then _ _ _ _ (kpanic_dbg-Prints ctx)
      (kernel_panic-Prints _ (literal "Illegal instruction.") refl)

pub double_fault-Prints : Prints double_fault (literal "Double fault! Unrecoverable CPU state.\n")
unfolding double_fault format
double_fault-Prints = Prints-kprintf _ _ _ refl

pub protection_fault-Prints : (ctx : IdtCtx) → Prints (protection_fault ctx) (fault_events ctx)
unfolding protection_fault format directive_events next_word
protection_fault-Prints ctx =
    Prints-then _ _ _ _ (kpanic_dbg-Prints ctx) (Prints-kprintf _ _ _ refl)

pub page_fault-Prints :
    (ctx : IdtCtx) (cr2 : ℕ) → Prints (page_fault ctx cr2) (page_fault_events ctx cr2)
unfolding page_fault format directive_events next_word
page_fault-Prints ctx cr2 = Prints-then _ _ _ _ (kpanic_dbg-Prints ctx) (
    Prints-then _ _ _ _ (Prints-kprintf _ _ (field "Page Fault accessing 0x" cr2) refl) (
      Prints-then _ _ _ _ (Prints-kprintf _ _ (field "Error code (flags): 0x" ctx.errc) refl)
        (kernel_panic-Prints _ (literal "Page fault.\n") refl)))

pub unknown_exception-Prints : (ctx : IdtCtx) → Prints (unknown_exception ctx) (unknown_events ctx)
unfolding unknown_exception format directive_events long_events next_word
unknown_exception-Prints ctx = Prints-kprintf _ _ _ refl

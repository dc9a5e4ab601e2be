-- ===== src/Init/Messages.antt =====
-- arch/x86_64/init.c: the messages of `arch_init`.
use Prim.Native.String.{String}
use feudos.Prelude.{◌≡◌, ◌∙◌, refl, sym, some, List, [], ◌++◌}
use feudos.Str.{c_string}
use feudos.Vga.{Screen}
use feudos.Vga.Valid.{IsValid}
use feudos.Printf.{plain}
use feudos.Printf.Format.{Event, replay, format}
use feudos.Printf.Directive.{replay-append}
use feudos.Printf.Prints.{literal}
use feudos.Log.{info}
use feudos.Log.Events.{prefix_events, klog-Prints}
use feudos.Init.{Machine, log_info}

-- The messages of level INFO.
abbrev pub told : String → List Event
told text = prefix_events info ++ literal text

-- The machine but for its screen, which is valid and shows the message.
abbrev pub Told : String → Machine → Type 0
Told text m =
    (t : Screen) × (log_info text m ≡ some (record m { kernel = record m.kernel { screen = t } }))
    × IsValid t
    × (replay (told text) m.kernel.screen ≡ some t)

pub log_info-Told :
    (text : String) (m : Machine)
    → format plain (c_string text) [] ≡ some (literal text)
    → IsValid m.kernel.screen
    → Told text m
unfolding log_info
log_info-Told text m e v =
    let (run, (t, et, vt)) =
      klog-Prints info (c_string text) [] (literal text) e m.kernel.screen v in
    (t, rw et refl, vt, sym run ∙ et)

-- The five messages of `arch_init`.
abbrev pub messages : List Event
messages =
    told "Initialized GDT.\n"
    ++ (told "Initialized IDT.\n"
        ++ (told "PIC initialization done.\n"
            ++ (told "Interrupts enabled.\n" ++ told "SSE enabled.\n")))

-- What two texts show, one after the other.
pub replay-both :
    (es fs : List Event) (s : Screen) {t u : Screen}
    → replay es s ≡ some t
    → replay fs t ≡ some u
    → replay (es ++ fs) s ≡ some u
replay-both es fs s e f = replay-append es fs s ∙ rw e f

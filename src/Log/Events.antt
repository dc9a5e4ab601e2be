-- ===== src/Log/Events.antt =====
-- kernel/log.c: what a message shows.
use Prim.Native.String.{String}
use feudos.Prelude.{ℕ, ◌≡◌, refl, some, List, [], ◌∷◌, ◌++◌}
use feudos.Printf.{Arg, plain, kprintf, kvprintf, next_text}
use feudos.Printf.Format.{Event, format, directive_events}
use feudos.Printf.Prints.{Prints, Prints-nil, Prints-kprintf, Prints-then, literal, joined}
use feudos.Str.Compare.{c_text}
use feudos.Log.{
  LogLevel, none_level, info, warn, error, critical, other, klog_prefix, klogl_str, klog,
}

abbrev pub tag : String → List Event
tag name = joined (literal "[" ∷ literal name ∷ literal "] " ∷ [])

-- The level in brackets, but for the messages of no level.
abbrev pub prefix_events : LogLevel → List Event
prefix_events none_level = []
prefix_events info = tag "OK"
prefix_events warn = tag "WARN"
prefix_events error = tag "ERROR"
prefix_events critical = tag "CRITICAL"
prefix_events other = tag ""

klog_prefix-Prints : (l : LogLevel) → Prints (klog_prefix l) (prefix_events l)
unfolding klog_prefix klogl_str format directive_events next_text c_text
klog_prefix-Prints none_level = Prints-nil
klog_prefix-Prints info = Prints-kprintf _ _ _ refl
klog_prefix-Prints warn = Prints-kprintf _ _ _ refl
klog_prefix-Prints error = Prints-kprintf _ _ _ refl
klog_prefix-Prints critical = Prints-kprintf _ _ _ refl
klog_prefix-Prints other = Prints-kprintf _ _ _ refl

-- On every valid screen `klog` shows the level in brackets, but for `NONE`, and then what the
-- format says, without a fault, and leaves a valid screen.
pub klog-Prints :
    (l : LogLevel) (fmt : List ℕ) (args : List Arg) (es : List Event)
    → format plain fmt args ≡ some es
    → Prints (klog l fmt args) (prefix_events l ++ es)
unfolding klog kprintf
klog-Prints l fmt args es e =
    Prints-then (klog_prefix l) (kvprintf fmt args) _ es (klog_prefix-Prints l)
      (Prints-kprintf fmt args es e)

-- ===== src/Ksh/Events.antt =====
-- kernel/ksh/handlers.c: what each command shows, as events on the screen.
use Prim.Native.String.{String}
use feudos.Prelude.{ℕ, ◌/◌, ◌%◌, Bool, List, [], ◌∷◌, ◌++◌, if◌then◌else◌}
use feudos.Str.{codes}
use feudos.Printf.Numeral.{numeral}
use feudos.Printf.Format.{Event, recolor}
use feudos.Printf.Prints.{shown, literal, joined}

-- Hours, minutes and seconds, without leading zeros.
abbrev pub clock_events : ℕ → ℕ → ℕ → List Event
clock_events h m s = joined (
    literal "up "
    ∷ shown (numeral 10 h)
    ∷ literal ":"
    ∷ shown (numeral 10 m)
    ∷ literal ":"
    ∷ shown (numeral 10 s)
    ∷ literal "\n"
    ∷ [])

abbrev pub uptime_events : ℕ → List Event
uptime_events seconds = clock_events (seconds / 3600) (seconds / 60 % 60) (seconds % 60)

-- A feature with its sign.
abbrev pub feature_line : Bool → List ℕ → List Event
feature_line present name =
    joined (literal " " ∷ literal (if present then "+" else "-") ∷ shown name ∷ literal " " ∷ [])

abbrev pub feature_events : List (Bool × String) → List Event
feature_events [] = []
feature_events ((present, name) ∷ rest) = feature_line present (codes name) ++ feature_events rest

abbrev pub cpuid_events : List ℕ → List ℕ → List (Bool × String) → List Event
cpuid_events vendor brand features = joined (
    joined (literal "CPU vendor: " ∷ shown vendor ∷ literal "\n" ∷ [])
    ∷ joined (literal "CPU model: " ∷ shown brand ∷ literal "\n" ∷ [])
    ∷ literal "Features: "
    ∷ feature_events features
    ∷ literal "\n"
    ∷ [])

abbrev pub echo_events : List ℕ → List Event
echo_events args = shown args ++ literal "\n"

abbrev pub help_line : List ℕ → List ℕ → List Event
help_line name help = joined (shown name ∷ literal ": " ∷ shown help ∷ literal "\n" ∷ [])

abbrev pub help_events : List (String × String) → List Event
help_events [] = []
help_events ((name, help) ∷ rest) = help_line (codes name) (codes help) ++ help_events rest

-- `kernel_panic` changes the colour first.
abbrev pub panic_events : List ℕ → List Event
panic_events msg = recolor 4 ∷ joined (literal "Kernel panic!\n\t" ∷ shown msg ∷ literal "\n" ∷ [])

abbrev pub unknown_events : List ℕ → List Event
unknown_events name = joined (literal "Unknown command: " ∷ shown name ∷ literal "\n" ∷ [])

-- ===== src/Ksh/Commands.antt =====
-- kernel/ksh/handlers.c: each handler shows its events.
use Prim.Native.String.{String}
use feudos.Prelude.{
  replicate, ℕ, ◌≡◌, refl, Bool, true, false, some, List, [], ◌∷◌, ◌/◌, ◌%◌, ◌<◌, ◌^◌, arith,
  if◌then◌else◌,
}
use feudos.Str.{codes, c_string, strncpy_f}
use feudos.Str.Compare.{c_text}
use feudos.Printf.{plain, text, word, kprintf, kvprintf, next_word, next_text}
use feudos.Printf.Format.{recolor, format, directive_events, long_events}
use feudos.Printf.Prints.{Prints, Prints-nil, Prints-kprintf, Prints-then, joined, shown, literal}
use feudos.Timer.{timer_uptime_ms}
use feudos.Vga.{bit_set}
use feudos.Log.{kernel_panic}
use feudos.Ksh.{
  ksh_hndl_panic, Cpuid, cpu_vendor, cpu_brand, cpu_features, ksh_hndl_cpuid, KshCmd, print_help,
  print_features, ksh_handlers, ksh_hndl_echo, ksh_hndl_uptime, ksh_hndl_uname, ksh_hndl_help,
}
use feudos.Ksh.Events.{
  echo_events, clock_events, help_line, feature_line, cpuid_events, panic_events, unknown_events,
  uptime_events, help_events, feature_events,
}

echo_format :
    (args cs : List ℕ)
    → c_text args ≡ some cs
    → format plain (c_string "%s\n") (text args ∷ []) ≡ some (echo_events cs)
unfolding format directive_events next_text
echo_format args cs h = rw h refl

-- `echo` shows its arguments and a newline.
pub ksh_hndl_echo-Prints :
    (args cs : List ℕ) → c_text args ≡ some cs → Prints (ksh_hndl_echo args) (echo_events cs)
unfolding ksh_hndl_echo
ksh_hndl_echo-Prints args cs h = Prints-kprintf _ _ _ (echo_format args cs h)

up_format :
    (h m s : ℕ)
    → h < 2 ^ 64
    → m < 2 ^ 64
    → s < 2 ^ 64
    → format plain (c_string "up %lu:%lu:%lu\n") (word h ∷ word m ∷ word s ∷ [])
      ≡ some (clock_events h m s)
unfolding format long_events next_word
up_format h m s hh hm hs =
    let eh : h % 2 ^ 64 ≡ h = omega arith in
    let em : m % 2 ^ 64 ≡ m = omega arith in
    let es : s % 2 ^ 64 ≡ s = omega arith in rw (eh, em, es) refl

-- `uptime` shows the time since the start.
pub ksh_hndl_uptime-Prints :
    (ticks : ℕ)
    → ticks < 2 ^ 64
    → Prints (ksh_hndl_uptime ticks) (uptime_events (timer_uptime_ms ticks / 1000))
unfolding ksh_hndl_uptime timer_uptime_ms
ksh_hndl_uptime-Prints ticks h =
    Prints-kprintf _ _ _ (up_format _ _ _ (omega arith) (omega arith) (omega arith))

pub ksh_hndl_uname-Prints : Prints ksh_hndl_uname (literal "FeudOS kernel v0.0.7 x86_64\n")
unfolding ksh_hndl_uname format directive_events next_text c_text
ksh_hndl_uname-Prints = Prints-kprintf _ _ _ refl

-- The strings of the table, one for one.
abbrev Texts : List KshCmd → List (String × String) → Type 0
Texts [] [] = Unit
Texts [] (t ∷ ts) = ⊥
Texts (h ∷ hs) [] = ⊥
Texts (h ∷ hs) ((name, help) ∷ ts) =
    (c_text h.name ≡ some (codes name)) × (c_text h.help_text ≡ some (codes help)) × Texts hs ts

help_format :
    (hndl : KshCmd) (name help : List ℕ)
    → c_text hndl.name ≡ some name
    → c_text hndl.help_text ≡ some help
    → format plain (c_string "%s: %s\n") (text hndl.name ∷ text hndl.help_text ∷ [])
      ≡ some (help_line name help)
unfolding format directive_events next_text
help_format hndl name help hn hh = rw (hn, hh) refl

print_help-Prints :
    (hs : List KshCmd) (ts : List (String × String))
    → Texts hs ts
    → Prints (print_help hs) (help_events ts)
unfolding print_help
print_help-Prints [] [] p = Prints-nil
print_help-Prints [] (t ∷ ts) p = absurd p
print_help-Prints (h ∷ hs) [] p = absurd p
print_help-Prints (h ∷ hs) ((name, help) ∷ ts) (pn, ph, p) =
    Prints-then _ _ _ _ (Prints-kprintf _ _ _ (help_format h (codes name) (codes help) pn ph))
      (print_help-Prints hs ts p)

-- The names and the texts that `help` shows.
abbrev pub help_table : List (String × String)
help_table =
    ("uptime", "Prints how long machine been running")
    ∷ ("cpuid", "Prints some info about this machine's CPU")
    ∷ ("clear", "Clears the screen")
    ∷ ("uname", "Clears the screen")
    ∷ ("panic", "Triggers a kernel panic with specified message.")
    ∷ ("echo", "Repeat the specified text.")
    ∷ ("help", "Print help message.")
    ∷ []

ksh_handlers-Texts : Texts ksh_handlers help_table
unfolding c_text
ksh_handlers-Texts = (
  refl,
  refl,
  (refl, refl, (refl, refl, (refl, refl, (refl, refl, (refl, refl, (refl, refl, tt)))))),
)

pub ksh_hndl_help-Prints : Prints ksh_hndl_help (help_events help_table)
unfolding ksh_hndl_help
ksh_hndl_help-Prints = print_help-Prints ksh_handlers help_table ksh_handlers-Texts

-- A feature of `cpuid`, through the array that holds its name.
abbrev Features : List (Bool × List ℕ) → List (Bool × String) → Type 0
Features [] [] = Unit
Features [] (t ∷ ts) = ⊥
Features (f ∷ fs) [] = ⊥
Features (f ∷ fs) ((present, name) ∷ ts) =
    (f.0 ≡ present)
    × ((x : List ℕ) × (strncpy_f (replicate 7 0) f.1 7 ≡ some x) × (c_text x ≡ some (codes name)))
    × Features fs ts

feature_format :
    (present : Bool) (x cs : List ℕ)
    → c_text x ≡ some cs
    → format plain
        (c_string " %s%s ")
        (text (if present then c_string "+" else c_string "-") ∷ text x ∷ [])
      ≡ some (feature_line present cs)
unfolding format directive_events next_text c_text
feature_format true x cs h = rw h refl
feature_format false x cs h = rw h refl

print_features-Prints :
    (fs : List (Bool × List ℕ)) (ts : List (Bool × String))
    → Features fs ts
    → Prints (print_features fs) (feature_events ts)
unfolding print_features
print_features-Prints [] [] p = Prints-nil
print_features-Prints [] (t ∷ ts) p = absurd p
print_features-Prints (f ∷ fs) [] p = absurd p
print_features-Prints ((b, n) ∷ fs) ((present, name) ∷ ts) (eb, (x, ex, ec), p) =
    rw (eb, ex)
      (Prints-then _ _ _ _ (Prints-kprintf _ _ _ (feature_format present x (codes name) ec))
        (print_features-Prints fs ts p))

abbrev pub feature_table : Cpuid → List (Bool × String)
feature_table id =
    (bit_set (id 1).ecx 0, "SSE3")
    ∷ (bit_set (id 1).ecx 19, "SSE4.1")
    ∷ (bit_set (id 1).ecx 20, "SSE4.2")
    ∷ (bit_set (id 1).edx 9, "APIC")
    ∷ (bit_set (id 1).ecx 28, "AVX")
    ∷ (bit_set (id 7).ebx 5, "AVX2")
    ∷ []

cpu_features-Features : (id : Cpuid) → Features (cpu_features id) (feature_table id)
unfolding cpu_features strncpy_f c_text
cpu_features-Features id = (
  refl,
  (_, refl, refl),
  (
    refl,
    (_, refl, refl),
    (
      refl,
      (_, refl, refl),
      (refl, (_, refl, refl), (refl, (_, refl, refl), (refl, (_, refl, refl), tt))),
    ),
  ),
)

pub text_format :
    (x cs : List ℕ)
    → c_text x ≡ some cs
    → (format plain (c_string "CPU vendor: %s\n") (text x ∷ [])
        ≡ some (joined (literal "CPU vendor: " ∷ shown cs ∷ literal "\n" ∷ [])))
      × (format plain (c_string "CPU model: %s\n") (text x ∷ [])
          ≡ some (joined (literal "CPU model: " ∷ shown cs ∷ literal "\n" ∷ [])))
      × (format plain (c_string "Unknown command: %s\n") (text x ∷ []) ≡ some (unknown_events cs))
unfolding format directive_events next_text
text_format x cs h = (rw h refl, rw h refl, rw h refl)

-- `cpuid` shows the vendor, the model and the features that the processor reports.
pub ksh_hndl_cpuid-Prints :
    (id : Cpuid) (vendor brand : List ℕ)
    → c_text (cpu_vendor id) ≡ some vendor
    → c_text (cpu_brand id) ≡ some brand
    → Prints (ksh_hndl_cpuid id) (cpuid_events vendor brand (feature_table id))
unfolding ksh_hndl_cpuid format
ksh_hndl_cpuid-Prints id vendor brand hv hb =
    Prints-then _ _ _ _ (Prints-kprintf _ _ _ (text_format (cpu_vendor id) vendor hv).0) (
      Prints-then _ _ _ _ (Prints-kprintf _ _ _ (text_format (cpu_brand id) brand hb).1) (
        Prints-then _ _ _ _ (Prints-kprintf _ _ _ refl) (
          Prints-then _ _ _ _ (print_features-Prints _ _ (cpu_features-Features id))
            (Prints-kprintf _ _ _ refl))))

pub ksh_hndl_panic-Prints :
    (args cs : List ℕ) → c_text args ≡ some cs → Prints (ksh_hndl_panic args) (panic_events cs)
unfolding ksh_hndl_panic kernel_panic format directive_events next_word kprintf kvprintf
ksh_hndl_panic-Prints args cs h =
    Prints-then _ _ _ _ (Prints-kprintf _ _ (recolor 4 ∷ literal "Kernel panic!\n\t") refl)
      (Prints-kprintf _ _ _ (echo_format args cs h))

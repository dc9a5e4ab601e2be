-- ===== src/Ksh/Outcome.antt =====
-- kernel/ksh/handlers.c: how each command ends.
use feudos.Prelude.{
  ℕ, ◌≡◌, ◌^◌, ◌/◌, ◌*◌, ◌%◌, ◌<◌, refl, sym, ◌∙◌, arith, true, inl, Option, some, List, ◌>>=◌,
  Yields, Yields-bind, Yields-mono, Yields-and,
}
use feudos.Str.Compare.{c_text}
use feudos.Vga.{Screen, vga_move_cursor}
use feudos.Vga.Valid.{IsValid, Printed, Printed-move, Printed-trans, Redrawn-refl}
use feudos.Vga.Render.{Filled, Filled-move, bg_rgb_black}
use feudos.Vga.Blank.{vga_clear_screen-blank}
use feudos.Vga.Renders.{Renders}
use feudos.Vga.Terminal.{blank}
use feudos.Vga.Setup.{vga_clear_screen-Printed}
use feudos.Printf.Format.{Event, replay}
use feudos.Printf.Prints.{Prints, literal}
use feudos.Timer.{timer_uptime_ms}
use feudos.Ksh.{
  Cpuid, cpu_vendor, cpu_brand, Handler, uptime, cpuid, clear, uname, panic, echo, help, Ended,
  returned, halted, call, ksh_hndl_clear,
}
use feudos.Ksh.Events.{uptime_events, cpuid_events, echo_events, help_events, panic_events}
use feudos.Ksh.Commands.{
  help_table, feature_table, ksh_hndl_uptime-Prints, ksh_hndl_cpuid-Prints, ksh_hndl_uname-Prints,
  ksh_hndl_echo-Prints, ksh_hndl_help-Prints, ksh_hndl_panic-Prints,
}

-- What a processor says of itself.
pub record Described (id : Cpuid) (vendor brand : List ℕ) : Type 0 where
  pub vendor_text : c_text (cpu_vendor id) ≡ some vendor
  pub brand_text : c_text (cpu_brand id) ≡ some brand

-- A program that does not fault, shows these events, leaves a valid screen and ends so.
abbrev pub Shows : List Event → (Screen → Ended) → Screen → Option Ended → Type 0
Shows es end s = Yields λ e. (t : Screen) × (e ≡ end t) × (replay es s ≡ some t) × IsValid t

-- `clear` leaves a black screen, which shows blank cells with the cursor at the origin.
abbrev pub Cleared : Screen → Ended → Type 0
Cleared s (returned ok t) = (ok ≡ true) × Printed s t × Filled 0 s t × Renders t (blank 0)
Cleared s (halted t) = ⊥

abbrev pub Outcome : Cpuid → List ℕ → List ℕ → ℕ → Handler → List ℕ → Screen → Option Ended → Type 0
Outcome id vendor brand ticks uptime args s =
    Shows (uptime_events (ticks * 1000 % 2 ^ 64 / 100 / 1000)) (returned true) s
Outcome id vendor brand ticks cpuid args s =
    Shows (cpuid_events vendor brand (feature_table id)) (returned true) s
Outcome id vendor brand ticks clear args s = Yields (Cleared s)
Outcome id vendor brand ticks uname args s =
    Shows (literal "FeudOS kernel v0.0.7 x86_64\n") (returned true) s
Outcome id vendor brand ticks panic args s = Shows (panic_events args) halted s
Outcome id vendor brand ticks echo args s = Shows (echo_events args) (returned true) s
Outcome id vendor brand ticks help args s = Shows (help_events help_table) (returned true) s

Shows-Prints :
    (m : Screen → Option Screen) (es : List Event) (end : Screen → Ended) (s : Screen)
    → Prints m es
    → IsValid s
    → Shows es end s (do t ← m s; some (end t))
Shows-Prints m es end s p v =
    let (run, (t, et, vt)) = p s v in (end t, rw et refl, (t, refl, sym run ∙ et, vt))

clear-Cleared :
    (s : Screen) → IsValid s → Yields (Cleared s) (do t ← ksh_hndl_clear s; some (returned true t))
unfolding ksh_hndl_clear
clear-Cleared s v =
    let moved : Printed s (vga_move_cursor 0 0 s) =
      Printed-move s s 0 0 v (Redrawn-refl s v) (v.grid.rows_pos, inl v.grid.cols_pos) in
    let at_origin = vga_move_cursor 0 0 s in
    Yields-bind _ _
      (Yields-and _ (vga_clear_screen-Printed 15 at_origin moved.valid)
        (vga_clear_screen-blank 15 at_origin moved.valid))
      λ t ((p, _, _), (_, black, shown)). (
        _,
        refl,
        (
          refl,
          Printed-trans s _ t moved p,
          Filled-move 0 0 0 s t (rw (bg_rgb_black 15 (omega arith)) at black),
          rw (bg_rgb_black 15 (omega arith)) at shown,
        ),
      )

-- On a valid screen, with a 64-bit counter, terminated arguments and a processor that describes
-- itself in terminated texts, each handler does not fault, leaves a valid screen and ends as its
-- command says: it shows its events and returns true, `clear` leaves a black screen with the cursor at
-- the origin, and `panic` shows its message in the panic colour and halts.
pub call-Outcome :
    (id : Cpuid) (vendor brand : List ℕ) (ticks : ℕ) (h : Handler) (a args : List ℕ) (s : Screen)
    → Described id vendor brand
    → ticks < 2 ^ 64
    → c_text a ≡ some args
    → IsValid s
    → Outcome id vendor brand ticks h args s (call id ticks h a s)
unfolding call timer_uptime_ms
call-Outcome id vendor brand ticks uptime a args s d ht ha v =
    Shows-Prints _ _ (returned true) s (ksh_hndl_uptime-Prints ticks ht) v
call-Outcome id vendor brand ticks cpuid a args s d ht ha v =
    Shows-Prints _ _ (returned true) s
      (ksh_hndl_cpuid-Prints id vendor brand d.vendor_text d.brand_text) v
call-Outcome id vendor brand ticks clear a args s d ht ha v = clear-Cleared s v
call-Outcome id vendor brand ticks uname a args s d ht ha v =
    Shows-Prints _ _ (returned true) s ksh_hndl_uname-Prints v
call-Outcome id vendor brand ticks panic a args s d ht ha v =
    Shows-Prints _ _ halted s (ksh_hndl_panic-Prints a args ha) v
call-Outcome id vendor brand ticks echo a args s d ht ha v =
    Shows-Prints _ _ (returned true) s (ksh_hndl_echo-Prints a args ha) v
call-Outcome id vendor brand ticks help a args s d ht ha v =
    Shows-Prints _ _ (returned true) s ksh_hndl_help-Prints v

-- The screen that a command leaves.
abbrev pub Leaves : (Screen → Type 0) → Ended → Type 0
Leaves P (returned ok t) = P t
Leaves P (halted t) = P t

Shows-IsValid :
    (es : List Event) (end : Screen → Ended) (s : Screen) (m : Option Ended)
    → ((t : Screen) → IsValid t → Leaves IsValid (end t))
    → IsValid s
    → Shows es end s m
    → Yields (Leaves IsValid) m
Shows-IsValid es end s m leaves v e = Yields-mono m e λ r (t, er, _, vt). rw er (leaves t vt)

Cleared-IsValid : (s : Screen) (e : Ended) → Cleared s e → Leaves IsValid e
Cleared-IsValid s (returned ok t) c = c.1.valid
Cleared-IsValid s (halted t) c = absurd c

pub call-IsValid :
    (id : Cpuid) (vendor brand : List ℕ) (ticks : ℕ) (h : Handler) (a args : List ℕ) (s : Screen)
    → Described id vendor brand
    → ticks < 2 ^ 64
    → c_text a ≡ some args
    → IsValid s
    → Yields (Leaves IsValid) (call id ticks h a s)
call-IsValid id vendor brand ticks h a args s d ht ha v =
    valid h (call-Outcome id vendor brand ticks h a args s d ht ha v)
  where
    valid :
        (h : Handler)
        → Outcome id vendor brand ticks h args s (call id ticks h a s)
        → Yields (Leaves IsValid) (call id ticks h a s)
    valid uptime o = Shows-IsValid _ _ s _ (λ t vt. vt) v o
    valid cpuid o = Shows-IsValid _ _ s _ (λ t vt. vt) v o
    valid clear o = Yields-mono _ o (Cleared-IsValid s)
    valid uname o = Shows-IsValid _ _ s _ (λ t vt. vt) v o
    valid panic o = Shows-IsValid _ _ s _ (λ t vt. vt) v o
    valid echo o = Shows-IsValid _ _ s _ (λ t vt. vt) v o
    valid help o = Shows-IsValid _ _ s _ (λ t vt. vt) v o

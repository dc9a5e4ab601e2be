-- ===== src/Printf/Prints.antt =====
-- Programs over the screen that print: what they print, and their sequence.
use feudos.Prelude.{
  ℕ, ◌≡◌, ◌∙◌, sym, refl, Option, some, List, [], ◌∷◌, ◌++◌, map, ◌>>=◌, Yields, bind_cong-Yields,
}
use Prim.Native.String.{String}
use feudos.Str.{codes}
use feudos.Vga.{Screen}
use feudos.Vga.Valid.{IsValid}
use feudos.Printf.{Arg, plain, kprintf}
use feudos.Printf.Format.{Event, put, replay, format}
use feudos.Printf.Directive.{replay-append}
use feudos.Printf.Refine.{replay-IsValid, kvprintf-format}

-- The events of a text, of a literal, and of pieces one after the other.
abbrev pub shown : List ℕ → List Event
shown = map put

abbrev pub literal : String → List Event
literal text = shown (codes text)

abbrev pub joined : List (List Event) → List Event
joined [] = []
joined (es ∷ rest) = es ++ joined rest

-- On every valid screen the program prints these events, does not fault and leaves a valid screen.
abbrev pub Prints : (Screen → Option Screen) → List Event → Type 0
Prints m es = (s : Screen) → IsValid s → (m s ≡ replay es s) × Yields IsValid (m s)

-- It suffices to show what is printed.
pub Prints-replay :
    (m : Screen → Option Screen) (es : List Event)
    → ((s : Screen) → IsValid s → m s ≡ replay es s)
    → Prints m es
Prints-replay m es h s v = (h s v, rw (h s v) (replay-IsValid es s v))

-- Nothing is printed.
pub Prints-nil : Prints some []
unfolding replay
Prints-nil s v = (refl, (s, refl, v))

pub Prints-kprintf :
    (msg : List ℕ) (args : List Arg) (es : List Event)
    → format plain msg args ≡ some es
    → Prints (kprintf msg args) es
unfolding kprintf
Prints-kprintf msg args es e s v = kvprintf-format msg args s es v e

pub Prints-then :
    (m n : Screen → Option Screen) (es fs : List Event)
    → Prints m es
    → Prints n fs
    → Prints (λ s. m s >>= n) (es ++ fs)
Prints-then m n es fs hm hn =
    Prints-replay (λ s. m s >>= n) (es ++ fs)
      λ s v.
        bind_cong-Yields (m s) n (replay fs) (hm s v).1 (λ t vt. (hn t vt).0)
        ∙ (rw ((hm s v).0) refl)
        ∙ sym (replay-append es fs s)

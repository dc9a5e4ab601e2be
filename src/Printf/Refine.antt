-- ===== src/Printf/Refine.antt =====
-- kernel/vga.c, `kvprintf`: the output is what `format` says, and the screen stays valid.
use feudos.Prelude.{
  if_case, bind_cong-Yields, ℕ, ◌≡◌, ◌∙◌, refl, sym, ap, Option, some, List, [], ◌∷◌, ◌++◌, ◌==◌,
  ◌>>=◌, bind-eq-some, Yields, Yields-bind,
}
use feudos.Vga.{Screen, vga_putc, vga_change_text_color}
use feudos.Vga.Valid.{IsValid, recolor-IsValid}
use feudos.Vga.Putc.{vga_putc-Printed}
use feudos.Printf.{
  Arg, directive, long_directive, Mode, plain, percent, long, kvprintf_loop, kvprintf,
}
use feudos.Printf.Format.{Event, put, recolor, replay, directive_events, long_events, format}
use feudos.Printf.Directive.{replayed, replay-append, directive-replay, long-replay}

-- Events keep the screen valid.
pub replay-IsValid : (es : List Event) (s : Screen) → IsValid s → Yields IsValid (replay es s)
unfolding replay
replay-IsValid [] s v = (s, refl, v)
replay-IsValid (put c ∷ es) s v =
    Yields-bind (vga_putc c s.text_color s) (replay es) (vga_putc-Printed s c s.text_color v)
      λ t p. replay-IsValid es t p.valid
replay-IsValid (recolor k ∷ es) s v =
    replay-IsValid es (vga_change_text_color k s) (recolor-IsValid k s v)

-- A directive's events and those of the rest of the format.
abbrev pub followed : Option (List Event × List Arg) → List ℕ → Option (List Event)
followed o msg = do (es, rest) ← o; more ← format plain msg rest; some (es ++ more)

-- A directive that prints its events, and the loop on the rest of the format.
after_directive :
    (m : Option (List Arg × Screen)) (o : Option (List Event × List Arg)) (msg : List ℕ)
    (s : Screen) (es : List Event)
    → IsValid s
    → followed o msg ≡ some es
    → ((es' : List Event) (rest : List Arg) → o ≡ some (es', rest) → m ≡ replayed es' rest s)
    → ((rest : List Arg) (t : Screen) (more : List Event)
        → IsValid t
        → format plain msg rest ≡ some more
        → kvprintf_loop plain msg rest t ≡ replay more t)
    → (m >>= λ (rest, t). kvprintf_loop plain msg rest t) ≡ replay es s
after_directive m o msg s es v e same next =
    let ((es', rest), eo, f) = bind-eq-some o _ e in
    let (more, em, g) = bind-eq-some (format plain msg rest) (λ more. some (es' ++ more)) f in
    let (t, et, vt) = replay-IsValid es' s v in
    let run : (m >>= λ (rest, t). kvprintf_loop plain msg rest t) ≡ replay more t =
      rw (same es' rest eo, et) (next rest t more vt em) in
    let all : (replay es' s >>= replay more) ≡ replay more t = rw et in
    run ∙ sym (ap (λ es. replay es s) (cc g) ∙ replay-append es' more s ∙ all)

-- The terminator ends the output.
stop : (s : Screen) {es : List Event} → some [] ≡ some es → some s ≡ replay es s
unfolding replay
stop s {es} e = let f : ◌≡◌ {A = List Event} [] es = cc e in ap (λ es. replay es s) f

-- A plain character, and the loop on the rest of the format.
after_put :
    (c : ℕ) (msg : List ℕ) (args : List Arg) (s : Screen) (es : List Event)
    → IsValid s
    → ((t : Screen) (more : List Event)
        → IsValid t
        → format plain msg args ≡ some more
        → kvprintf_loop plain msg args t ≡ replay more t)
    → (do more ← format plain msg args; some (put c ∷ more)) ≡ some es
    → (vga_putc c s.text_color s >>= kvprintf_loop plain msg args) ≡ replay es s
unfolding replay
after_put c msg args s es v next e =
    let (more, em, g) = bind-eq-some (format plain msg args) (λ more. some (put c ∷ more)) e in
    bind_cong-Yields _ _ _ (vga_putc-Printed s c s.text_color v) (λ t p. next t more p.valid em)
    ∙ (let f : put c ∷ more ≡ es = cc g in ap (λ es. replay es s) f)

kvprintf_loop-replay :
    (mode : Mode) (msg : List ℕ) (args : List Arg) (s : Screen) (es : List Event)
    → IsValid s
    → format mode msg args ≡ some es
    → kvprintf_loop mode msg args s ≡ replay es s
unfolding kvprintf_loop format
kvprintf_loop-replay plain [] args s es v e = cc
kvprintf_loop-replay percent [] args s es v e = cc
kvprintf_loop-replay long [] args s es v e = cc
kvprintf_loop-replay plain (c ∷ msg) args s es v e =
    if_case _ (c == 0) _ _ _ _ (stop s)
      (if_case _ (c == b'%') _ _ _ _ (kvprintf_loop-replay percent msg args s es v) (
        after_put c msg args s es v
          λ t more vt em. kvprintf_loop-replay plain msg args t more vt em))
      e
kvprintf_loop-replay percent (c ∷ msg) args s es v e =
    if_case _ (c == 0) _ _ _ _ (stop s)
      (if_case _ (c == b'l') _ _ _ _ (kvprintf_loop-replay long msg args s es v) λ f.
        after_directive (directive c args s) (directive_events c args) msg s es v f
          (λ es' rest eo. directive-replay c args s v eo)
          (λ rest t more vt em. kvprintf_loop-replay plain msg rest t more vt em))
      e
kvprintf_loop-replay long (c ∷ msg) args s es v e =
    after_directive (long_directive c args s) (long_events c args) msg s es v e
      (λ es' rest eo. long-replay c args s v eo)
      (λ rest t more vt em. kvprintf_loop-replay plain msg rest t more vt em)

-- On a valid screen, a format whose directives find their arguments is printed as `format` says,
-- without a fault, and leaves a valid screen.
pub kvprintf-format :
    (msg : List ℕ) (args : List Arg) (s : Screen) (es : List Event)
    → IsValid s
    → format plain msg args ≡ some es
    → (kvprintf msg args s ≡ replay es s) × Yields IsValid (kvprintf msg args s)
unfolding kvprintf
kvprintf-format msg args s es v e =
    let same : kvprintf_loop plain msg args s ≡ replay es s =
      kvprintf_loop-replay plain msg args s es v e in
    (same, rw same (replay-IsValid es s v))

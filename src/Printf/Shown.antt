-- ===== src/Printf/Shown.antt =====
-- kernel/vga.c, `kvprintf`: what the screen shows after it, as a terminal of cells.
use feudos.Prelude.{
  ℕ, ◌≤◌, ◌<◌, ◌≡◌, ◌≢◌, ◌∙◌, refl, sym, arith, some, List, [], ◌∷◌, Yields, Yields-bind,
  Yields-and, ap,
}
use feudos.Vga.{Screen, vga_putc, vga_change_text_color}
use feudos.Vga.Valid.{IsValid, recolor-IsValid}
use feudos.Vga.Renders.{Renders, recolor-Renders, recolor-sizes}
use feudos.Vga.Typed.{next_char}
use feudos.Vga.Terminal.{Terminal, print_char}
use feudos.Printf.{Arg, plain, kvprintf}
use feudos.Printf.Format.{Event, put, recolor, replay, format}
use feudos.Printf.Refine.{kvprintf-format}

-- The terminal after the events, which start in a colour.
unfoldable pub print_events : ℕ → ℕ → ℕ → List Event → Terminal → Terminal
print_events width height color [] t = t
print_events width height color (put c ∷ es) t =
    print_events width height color es (print_char width height c color t)
print_events width height color (recolor k ∷ es) t = print_events width height k es t

-- No '\b' is printed.
abbrev pub NoErase : List Event → Type 0
NoErase [] = Unit {0}
NoErase (put c ∷ es) = (c ≢ 8) × NoErase es
NoErase (recolor k ∷ es) = NoErase es

replay-print_events :
    (es : List Event) (color width height : ℕ) (s : Screen) (t : Terminal)
    → s.vga_width ≡ width
    → s.vga_height ≡ height
    → s.text_color ≡ color
    → IsValid s
    → width ≤ 255
    → t.col < width
    → NoErase es
    → Renders s t
    → Yields (λ u. Renders u (print_events width height color es t)) (replay es s)
unfolding replay print_events
replay-print_events [] color width height s t ew eh ec v narrow h k r = (s, refl, r)
replay-print_events (put c ∷ es) color width height s t ew eh ec v narrow h k r = rw (sym ec) (
    Yields-bind (vga_putc c s.text_color s) (replay es)
      (next_char s t c s.text_color v (omega arith) (omega arith) k.0 r)
      λ a (p, aw, ah, ac, ar).
        replay-print_events es s.text_color width height a
          (print_char width height c s.text_color t) (aw ∙ ew) (ah ∙ eh)
          (ap (λ (w : Screen). w.text_color) p.same) p.valid narrow (rw (ew, eh) at ac) k.1
          (rw (ew, eh) at ar))
replay-print_events (recolor j ∷ es) color width height s t ew eh ec v narrow h k r =
    let (ej, kw, kh) = recolor-sizes j s in
    replay-print_events es j width height (vga_change_text_color j s) t (kw ∙ ew) (kh ∙ eh) ej
      (recolor-IsValid j s v) narrow h k (recolor-Renders j s t r)

-- On a valid screen of at most 255 columns that shows a terminal whose cursor is in the grid,
-- `kvprintf` of a format whose directives find their arguments and print no '\b' does not fault,
-- keeps the screen valid, and shows, pixel for pixel, the terminal after the formatted characters,
-- each in the colour that the format has set.
pub kvprintf-print_events :
    (msg : List ℕ) (args : List Arg) (s : Screen) (t : Terminal) (es : List Event)
    → IsValid s
    → s.vga_width ≤ 255
    → t.col < s.vga_width
    → format plain msg args ≡ some es
    → NoErase es
    → Renders s t
    → Yields
        (λ u. IsValid u × Renders u (print_events s.vga_width s.vga_height s.text_color es t))
        (kvprintf msg args s)
kvprintf-print_events msg args s t es v narrow h e k r =
    let (same, valid) = kvprintf-format msg args s es v e in
    Yields-and _ valid (
      rw same (
        replay-print_events es s.text_color s.vga_width s.vga_height s t refl refl refl v narrow h k
          r))

-- ===== src/Vga/Typed.antt =====
-- kernel/vga.c: a text printed with `vga_print`, on the terminal of Vga/Terminal.
use feudos.Prelude.{
  ℕ, ◌≤◌, ◌<◌, ◌≡◌, ◌≢◌, ◌∙◌, ap, refl, arith, Yields, Yields-bind, Yields-mono, List, [], ◌∷◌,
  ◌++◌,
}
use feudos.Str.{Lacks}
use feudos.Vga.{Screen, vga_putc, vga_print}
use feudos.Vga.Valid.{IsValid, Printed, Printed-trans}
use feudos.Vga.Text.{put_text, vga_print-put_text}
use feudos.Vga.Renders.{Renders}
use feudos.Vga.Refine.{vga_putc-Renders}
use feudos.Vga.Terminal.{Terminal, print_char}

-- Without '\b' the cursor stays in the grid.
pub print_char-col :
    (width height c color : ℕ) (t : Terminal)
    → c ≢ 8
    → t.col < width
    → (print_char width height c color t).col < width
print_char-col width height c color t h k = ground arith

-- The characters in order, in one colour.
unfoldable pub print_text : ℕ → ℕ → ℕ → List ℕ → Terminal → Terminal
print_text width height color [] t = t
print_text width height color (c ∷ cs) t =
    print_text width height color cs (print_char width height c color t)

-- A character that is not '\b': the screen shows it, and can show the next.
pub next_char :
    (s : Screen) (t : Terminal) (c color : ℕ)
    → IsValid s
    → s.vga_width ≤ 255
    → t.col < s.vga_width
    → c ≢ 8
    → Renders s t
    → Yields
        (λ u.
          Printed s u
          × (u.vga_width ≡ s.vga_width)
          × (u.vga_height ≡ s.vga_height)
          × ((print_char s.vga_width s.vga_height c color t).col < s.vga_width)
          × Renders u (print_char s.vga_width s.vga_height c color t))
        (vga_putc c color s)
next_char s t c color v narrow h k r =
    Yields-mono (vga_putc c color s)
      (vga_putc-Renders s t c color v narrow h (λ e _ _. elim (k e) [ ]) r)
      λ u (p, q). (
        p,
        ap (λ (w : Screen). w.vga_width) p.same,
        ap (λ (w : Screen). w.vga_height) p.same,
        print_char-col s.vga_width s.vga_height c color t k h,
        q,
      )

put_text-print_text :
    (cs : List ℕ) (color width height : ℕ) (s : Screen) (t : Terminal)
    → s.vga_width ≡ width
    → s.vga_height ≡ height
    → IsValid s
    → width ≤ 255
    → t.col < width
    → Lacks 8 cs
    → Renders s t
    → Yields
        (λ u. Printed s u × Renders u (print_text width height color cs t))
        (put_text color cs s)
unfolding put_text print_text
put_text-print_text [] color width height s t ew eh v narrow h k r =
    (s, refl, (record { valid = v; same = refl }, r))
put_text-print_text (c ∷ cs) color width height s t ew eh v narrow h k r =
    Yields-bind (vga_putc c color s) (put_text color cs)
      (next_char s t c color v (omega arith) (omega arith) k.0 r)
      λ a (p, aw, ah, ac, ar).
        Yields-mono (put_text color cs a)
          (put_text-print_text cs color width height a (print_char width height c color t) (aw ∙ ew)
            (ah ∙ eh) p.valid narrow (rw (ew, eh) at ac) k.1 (rw (ew, eh) at ar))
          λ u (q, ur). (Printed-trans s a u p q, ur)

-- On a valid screen of at most 255 columns that shows a terminal whose cursor is in the grid,
-- `vga_print` of a terminated text without '\b' does not fault, and shows the terminal after the
-- characters of the text.
pub vga_print-print_text :
    (cs r : List ℕ) (color : ℕ) (s : Screen) (t : Terminal)
    → IsValid s
    → s.vga_width ≤ 255
    → t.col < s.vga_width
    → Lacks 0 cs
    → Lacks 8 cs
    → Renders s t
    → Yields
        (λ u. Printed s u × Renders u (print_text s.vga_width s.vga_height color cs t))
        (vga_print (cs ++ 0 ∷ r) color s)
vga_print-print_text cs r color s t v narrow h z k shown =
    rw (vga_print-put_text color cs r s z)
      (put_text-print_text cs color s.vga_width s.vga_height s t refl refl v narrow h k shown)

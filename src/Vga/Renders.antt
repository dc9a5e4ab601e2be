-- ===== src/Vga/Renders.antt =====
-- kernel/vga.c: what it is for a screen to show a terminal of Vga/Terminal, pixel for pixel.
use feudos.Prelude.{
  ℕ, ◌+◌, ◌*◌, ◌≡◌, ◌∙◌, ap, refl, sym, arith, get_elem?, get_or, get_elem?-eq-get_or, length,
}
use feudos.Vga.{Screen, max_rows, vga_change_text_color, vga_move_cursor, vga_set_cursor}
use feudos.Vga.Pixels.{pixel}
use feudos.Vga.Bounds.{OnlyFb}
use feudos.Vga.Valid.{IsValid}
use feudos.Vga.Cells.{Shows}
use feudos.Vga.Lens.{OnlyLens, Counts}
use feudos.Vga.Terminal.{picture, Cells, look, Terminal}

-- The screen `s` shows the terminal `t`: the cells pixel for pixel, the counts, and the cursor.
pub record Renders (s : Screen) (t : Terminal) : Type 0 where
  pub pixels : Shows s t.cells s
  pub counts : Counts s t.lens s
  pub row : s.cursor_row ≡ t.row
  pub col : s.cursor_column ≡ t.col

-- The terminal that a screen shows as it is.
abbrev pub snapshot : Screen → Terminal
snapshot s = record {
  cells = λ r c. picture (λ y x. pixel s (r * 8 + y) (c * 8 + x));
  lens = λ r. get_or s.line_len r 0;
  row = s.cursor_row;
  col = s.cursor_column;
}

pub snapshot-Renders : (s : Screen) → IsValid s → Renders s (snapshot s)
snapshot-Renders s v = record {
  pixels = (refl, λ r c y x kr kc ky kx. refl);
  counts = λ r kr. get_elem?-eq-get_or s.line_len r 0 (omega (arith, v.lens, v.grid.rows_le));
  row = refl;
  col = refl;
}

-- What a draw leaves, on its own terms.
pub Shows-self : (s : Screen) (cells : Cells) (t : Screen) → Shows s cells t → Shows t cells t
Shows-self s cells t (e, sh) = (
  refl,
  λ r c y x kr kc ky kx.
      sh r c y x (rw (ap (λ (u : Screen). u.vga_height) e) at kr)
        (rw (ap (λ (u : Screen). u.vga_width) e) at kc) ky kx
      ∙ ap (λ f. look f (cells r c) y x) (sym (ap (λ (u : Screen). u.font) e)),
)

pub Shows-lens : (cells : Cells) (t u : Screen) → Shows t cells t → OnlyLens t u → Shows u cells u
Shows-lens cells t u (_, sh) (e, _) = rw e (refl, sh)

pub Counts-self :
    (s : Screen) (lens : ℕ → ℕ) (t : Screen) → OnlyFb s t → Counts s lens s → Counts t lens t
Counts-self s lens t e h = λ r kr.
    ap (λ (u : Screen). get_elem? u.line_len r) e
    ∙ h r (rw (ap (λ (u : Screen). u.vga_height) e) at kr)

pub Counts-lens : (lens : ℕ → ℕ) (t u : Screen) → OnlyLens t u → Counts t lens u → Counts u lens u
Counts-lens lens t u (e, _) h = λ r kr. h r (rw (ap (λ (w : Screen). w.vga_height) e) at kr)

-- `u` is `s` but for the framebuffer and `line_len`, which has its size.
abbrev pub Repainted : Screen → Screen → Type 0
Repainted s u = (u ≡ record s { fb = u.fb; line_len = u.line_len }) × (length u.line_len ≡ max_rows)

-- `u` is `s` but for the framebuffer and `line_len`.
pub Repainted-trans : (s b u : Screen) → OnlyFb s b → OnlyLens b u → Repainted s u
Repainted-trans s b u e (f, size) = (ground (arith, e, f), size)

-- The terminal with the cursor of `s`.
abbrev pub at_cursor : Screen → Cells → (ℕ → ℕ) → Terminal
at_cursor s cells lens = record {
  cells = cells;
  lens = lens;
  row = s.cursor_row;
  col = s.cursor_column;
}

pub at_cursor-Renders : (s : Screen) (t : Terminal) → Renders s t → t ≡ at_cursor s t.cells t.lens
at_cursor-Renders s t h =
    ap (λ r. record t { row = r }) (sym h.row)
    ∙ ap (λ c. record t { row = s.cursor_row; col = c }) (sym h.col)

-- A move of the cursor changes neither cells nor counts.
pub move-Renders :
    (s : Screen) (cells : Cells) (lens : ℕ → ℕ) (col row : ℕ)
    → Shows s cells s
    → Counts s lens s
    → Renders
        (vga_move_cursor col row s)
        (record { cells = cells; lens = lens; row = row; col = col })
unfolding vga_move_cursor vga_set_cursor
move-Renders s cells lens col row (_, sh) h = record {
  pixels = (refl, sh);
  counts = h;
  row = refl;
  col = refl;
}

-- The colour of the text is not shown.
pub recolor-Renders :
    (k : ℕ) (s : Screen) (t : Terminal) → Renders s t → Renders (vga_change_text_color k s) t
unfolding vga_change_text_color
recolor-Renders k s t r = record {
  pixels = (refl, r.pixels.1);
  counts = r.counts;
  row = r.row;
  col = r.col;
}

pub recolor-sizes :
    (k : ℕ) (s : Screen)
    → ((vga_change_text_color k s).text_color ≡ k)
      × ((vga_change_text_color k s).vga_width ≡ s.vga_width)
      × ((vga_change_text_color k s).vga_height ≡ s.vga_height)
unfolding vga_change_text_color
recolor-sizes k s = (refl, refl, refl)

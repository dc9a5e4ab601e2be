-- ===== src/Vga/Render.antt =====
-- kernel/vga.c, `draw_cell` and `vga_clear_screen`: what is on the screen after them.
use feudos.Prelude.{
  ℕ, ◌+◌, ◌-◌, ◌*◌, ◌/◌, ◌%◌, ◌≤◌, ◌<◌, ◌≡◌, ◌∙◌, ap, refl, fun_ext, arith, Bool, true, false, none,
  ltb, ltb→lt, ◌^◌, Option, length, set, length-set, get_elem?, get_elem?-set_self,
  get_elem?-set_ne, Bool-cases, inl, inr, some, Yields-mono, ◌==◌, if◌then◌else◌, for_range, Yields,
  Yields-bind, for_range_inv, lt→ltb,
}
use feudos.Vga.{
  Screen, fg_rgb, bg_rgb, bit_set, plot, draw_row, draw_cell, set_line_len, vga_move_cursor,
  vga_set_cursor, vga_clear_screen, max_rows,
}
use feudos.Vga.Palette.{text_rgb, fg_rgb-text_rgb, bg_rgb-text_rgb}
use feudos.Vga.Pixels.{pixel, Drawn, rectangle, rectangle-Drawn}
use feudos.Vga.Valid.{IsValid}

-- The loop of a rectangle, by colours that count from its corner.
rectangle_by-Drawn :
    (s : Screen) (g f : ℕ → ℕ → ℕ) (top left height width : ℕ)
    → ((y x : ℕ) → g y x ≡ f (top + y) (left + x))
    → left + width ≤ s.pitch_px
    → top + height ≤ s.fb_height
    → Yields (Drawn (rectangle top left height width) f s) (
        for_range height 0
          (λ y. for_range width 0 (λ x t. plot ((top + y) * t.pitch_px + (left + x)) (g y x) t))
          s)
rectangle_by-Drawn s g f top left height width law hw hh =
    let e : g ≡ (λ y x. f (top + y) (left + x)) = fun_ext λ y. fun_ext λ x. law y x in
    rw e (rectangle-Drawn s f top left height width hw hh)

-- The colour of a pixel of the glyph of `c` in the cell at (col, row).
abbrev pub glyph : Screen → ℕ → ℕ → ℕ → ℕ → ℕ → ℕ → ℕ
glyph s col row c color y x =
    if bit_set (s.font c (y - row * 8)) (x - col * 8) then fg_rgb color else bg_rgb color

-- What `draw_cell` draws of a character that has a glyph.
pub draw_cell-glyph :
    (s : Screen) (col row c color : ℕ)
    → c < 128
    → col * 8 + 8 ≤ s.pitch_px
    → row * 8 + 8 ≤ s.fb_height
    → Yields
        (Drawn (rectangle (row * 8) (col * 8) 8 8) (glyph s col row c color) s)
        (draw_cell col row c color s)
unfolding draw_cell draw_row
draw_cell-glyph s col row c color hc hw hh = rw (lt→ltb c 128 hc) (
    rectangle_by-Drawn s (λ y x. if bit_set (s.font c y) x then fg_rgb color else bg_rgb color)
      (glyph s col row c color) (row * 8) (col * 8) 8 8
      (λ y x.
        let ey : row * 8 + y - row * 8 ≡ y = omega arith in
        let ex : col * 8 + x - col * 8 ≡ x = omega arith in rw (ey, ex) refl)
      hw hh)

draw_cell_outside :
    (s : Screen) (col row c color : ℕ) → ltb c 128 ≡ false → draw_cell col row c color s ≡ none
unfolding draw_cell
draw_cell_outside s col row c color e = rw e refl

-- A pixel of the cell at (col, row): the bits of a glyph row are its columns from the left, the low half
-- of the attribute is the colour of the glyph and the high half that of the background.
abbrev pub picture : Screen → ℕ → ℕ → ℕ → ℕ → ℕ → ℕ → ℕ
picture s col row c color y x =
    if s.font c (y - row * 8) / 2 ^ (x - col * 8) % 2 == 1
    then text_rgb (color % 16)
    else text_rgb (color / 16 % 16)

-- A draw of a cell, or the fault of a character that has no glyph.
abbrev pub Draws : Bool → ℕ → ℕ → (ℕ → ℕ → ℕ) → Screen → Option Screen → Type 0
Draws true col row f s m = Yields (Drawn (rectangle (row * 8) (col * 8) 8 8) f s) m
Draws false col row f s m = m ≡ none

-- In a cell that lies in the framebuffer, `draw_cell` of a character below 128 does not fault, draws
-- the glyph pixel for pixel in the colours of its attribute, which are those of the sixteen text
-- colours, and leaves all other pixels and variables. A character from 128 on, which is outside the
-- font, faults.
pub draw_cell-Drawn :
    (s : Screen) (col row c color : ℕ)
    → col * 8 + 8 ≤ s.pitch_px
    → row * 8 + 8 ≤ s.fb_height
    → Draws (ltb c 128) col row (picture s col row c color) s (draw_cell col row c color s)
draw_cell-Drawn s col row c color hw hh = elim (Bool-cases (ltb c 128)) [
  | inl e ↦
      let colours : (y x : ℕ) → glyph s col row c color y x ≡ picture s col row c color y x =
        λ y x. rw (fg_rgb-text_rgb color, bg_rgb-text_rgb color) refl in
      let drawn = draw_cell-glyph s col row c color (ltb→lt c 128 e) hw hh in
      rw e (
        Yields-mono (draw_cell col row c color s) drawn λ t (only, d). (
          only,
          λ y x h.
              d y x h
              ∙ ap (λ v. if rectangle (row * 8) (col * 8) 8 8 y x then v else pixel s y x)
                  (colours y x),
        ))
  | inr e ↦ rw e (draw_cell_outside s col row c color e)
]

-- Every pixel of the screen has this colour.
abbrev pub Filled : ℕ → Screen → Screen → Type 0
Filled v s t = (y x : ℕ) → y < s.fb_height → x < s.fb_width → pixel t y x ≡ v

-- The painting of `vga_clear_screen`.
painting : ℕ → Screen → Option Screen
painting v s =
    for_range s.fb_height 0 (λ y. for_range s.fb_width 0 (λ x t. plot (y * t.pitch_px + x) v t)) s

from_zero : (w v y : ℕ) → (ℕ → Screen → Option Screen)
from_zero w v y x t = plot ((0 + y) * t.pitch_px + (0 + x)) v t

painting-Drawn :
    (v : ℕ) (s : Screen)
    → s.fb_width ≤ s.pitch_px
    → Yields (Drawn (rectangle 0 0 s.fb_height s.fb_width) (λ _ _. v) s) (painting v s)
unfolding painting from_zero
painting-Drawn v s hw =
    let body : (y : ℕ) → from_zero s.fb_width v y ≡ (λ x t. plot (y * t.pitch_px + x) v t) = λ y.
      fun_ext λ x. fun_ext λ t.
        let ey : 0 + y ≡ y = omega arith in let ex : 0 + x ≡ x = omega arith in rw (ey, ex) refl in
    let rows : (λ (y : ℕ). for_range s.fb_width 0 (from_zero s.fb_width v y))
        ≡ (λ (y : ℕ). for_range s.fb_width 0 (λ x t. plot (y * t.pitch_px + x) v t)) =
      fun_ext λ y. ap (for_range s.fb_width 0) (body y) in
    rw (← rows) (
      rectangle_by-Drawn s (λ _ _. v) (λ _ _. v) 0 0 s.fb_height s.fb_width (λ _ _. refl)
        (omega arith) (omega arith))

-- The counts of the rows below n are 0.
abbrev Emptied : Screen → ℕ → Screen → Type 0
Emptied s n t =
    (t ≡ record s { line_len = t.line_len })
    × (length t.line_len ≡ max_rows)
    × ((r : ℕ) → r < n → get_elem? t.line_len r ≡ some 0)

emptied :
    (s : Screen) (n : ℕ)
    → length s.line_len ≡ max_rows
    → n ≤ max_rows
    → Yields (Emptied s n) (for_range n 0 (λ i. set_line_len i 0) s)
unfolding set_line_len
emptied s n size hn =
    for_range_inv (Emptied s) _ n 0 n (omega arith)
      (λ i u _ hi (e, l, z).
        let inside : i < length u.line_len = omega (arith, l) in
        (
          record u { line_len = set u.line_len i 0 },
          rw (lt→ltb _ _ inside) refl,
          (
            ground arith,
            length-set u.line_len i 0 ∙ l,
            λ r hr. elim (Bool-cases (r == i)) [
              | inl same ↦
                  ap (get_elem? (set u.line_len i 0)) (ground arith)
                  ∙ get_elem?-set_self u.line_len i 0 inside
              | inr other ↦ get_elem?-set_ne u.line_len 0 (ground arith) ∙ z r (ground arith)
            ],
          ),
        ))
      s (refl, size, λ r h. absurd (omega arith))

-- The pixels, the counts and the cursor of a cleared screen.
pub record Cleared (v : ℕ) (s t : Screen) : Type 0 where
  pub filled : Filled v s t
  pub none_written : (r : ℕ) → r < s.vga_height → get_elem? t.line_len r ≡ some 0
  pub same : t ≡ record s { fb = t.fb; line_len = t.line_len; cursor_row = 0; cursor_column = 0 }

pub vga_clear_screen-Cleared :
    (color : ℕ) (s : Screen)
    → IsValid s
    → Yields (Cleared (bg_rgb color) s) (vga_clear_screen color s)
unfolding vga_clear_screen vga_move_cursor vga_set_cursor painting
vga_clear_screen-Cleared color s v =
    Yields-bind (painting (bg_rgb color) s) _ (painting-Drawn (bg_rgb color) s v.grid.visible)
      λ a (ea, d).
        let height : a.vga_height ≡ s.vga_height = ap (λ (u : Screen). u.vga_height) ea in
        Yields-bind _ _
          (emptied a a.vga_height (ap (λ (u : Screen). length u.line_len) ea ∙ v.lens)
            (omega (arith, height, v.grid.rows_le)))
          λ b (eb, _, z). (
            _,
            refl,
            record {
              filled = λ y x hy hx.
                  let inside : rectangle 0 0 s.fb_height s.fb_width y x ≡ true = ground arith in
                  let drawn : pixel a y x ≡ bg_rgb color =
                    d y x (omega (arith, v.grid.visible)) ∙ rw inside refl in
                  ap (λ (u : Screen). pixel u y x) eb ∙ drawn;
              none_written = λ r hr. z r (omega (arith, height, hr));
              same = ground (arith, ea, eb);
            },
          )

-- `vga_clear_screen` does not fault on a valid screen, and gives every pixel the background colour
-- of its attribute.
pub vga_clear_screen-Filled :
    (color : ℕ) (s : Screen)
    → IsValid s
    → Yields (Filled (bg_rgb color) s) (vga_clear_screen color s)
vga_clear_screen-Filled color s v =
    Yields-mono (vga_clear_screen color s) (vga_clear_screen-Cleared color s v) λ t c. c.filled

-- The background of the text colour alone is black.
pub bg_rgb_black : (color : ℕ) → color < 16 → bg_rgb color ≡ 0
unfolding bg_rgb
bg_rgb_black color h = let e : color / 16 % 16 ≡ 0 = omega arith in rw e refl

-- The cursor does not matter.
pub Filled-move : (v x y : ℕ) (s t : Screen) → Filled v (vga_move_cursor x y s) t → Filled v s t
unfolding vga_move_cursor vga_set_cursor
Filled-move v x y s t f = f

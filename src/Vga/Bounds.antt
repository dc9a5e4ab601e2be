-- ===== src/Vga/Bounds.antt =====
-- kernel/vga.c: the drawing loops stay inside the framebuffer, and change nothing else.
use feudos.Prelude.{
  ℕ, ◌+◌, ◌-◌, ◌*◌, ◌≤◌, ◌<◌, ◌≡◌, ap, refl, arith, ltb, for_range, Yields, Yields-check,
  for_range_inv, lt→ltb,
}
use feudos.Vga.{
  Screen, fb_size, plot, draw_row, draw_cell, clear_cell, glyph_w, glyph_h, copy_up, update,
}

-- `t` is `s` but for the words of the framebuffer.
abbrev pub OnlyFb : Screen → Screen → Type 0
OnlyFb s t = t ≡ record s { fb = t.fb }

pub plot-OnlyFb :
    (s t : Screen) (i v : ℕ) → OnlyFb s t → i < fb_size s → Yields (OnlyFb s) (plot i v t)
unfolding plot
plot-OnlyFb s t i v e h = (record t { fb = update t.fb i v }, ground arith, ground arith)

-- The last word of the cell lies in the framebuffer.
abbrev pub InFb : ℕ → ℕ → Screen → Type 0
InFb col row s = (row * glyph_h + 7) * s.pitch_px + (col * glyph_w + 7) < fb_size s

pitch-OnlyFb : (s t : Screen) → OnlyFb s t → t.pitch_px ≡ s.pitch_px
pitch-OnlyFb s t e = ap (λ (u : Screen). u.pitch_px) e

row_bound : (p q a b n m : ℕ) → p ≤ q → a ≤ b → q * n + b < m → p * n + a < m
row_bound p q a b n m h k l = grind arith

pub draw_cell-OnlyFb :
    (s t : Screen) (col row c color : ℕ)
    → OnlyFb s t
    → c < 128
    → InFb col row s
    → Yields (OnlyFb s) (draw_cell col row c color t)
unfolding draw_cell draw_row
draw_cell-OnlyFb s t col row c color e hc h = rw (lt→ltb c 128 hc) (
    for_range_inv (λ _. OnlyFb s) _ 8 0 8 refl
      (λ y u _ hy eu.
        for_range_inv (λ _. OnlyFb s) _ 8 0 8 refl
          (λ x v _ hx ev. plot-OnlyFb s v _ _ ev (
            rw (pitch-OnlyFb s v ev)
              (row_bound _ (row * 8 + 7) _ (col * 8 + 7) _ _ (omega arith) (omega arith) h)))
          u eu)
      t e)

pub clear_cell-OnlyFb :
    (s t : Screen) (col row color : ℕ)
    → OnlyFb s t
    → InFb col row s
    → Yields (OnlyFb s) (clear_cell col row color t)
unfolding clear_cell
clear_cell-OnlyFb s t col row color e h = draw_cell-OnlyFb s t col row b' ' color e (omega arith) h

-- One word of the copy in `vga_up`.
pub copy_up-OnlyFb :
    (s t : Screen) (y x : ℕ)
    → OnlyFb s t
    → y * s.pitch_px + x < fb_size s
    → Yields (OnlyFb s) (copy_up y x t)
unfolding copy_up
copy_up-OnlyFb s t y x e h =
    Yields-check (ltb (y * t.pitch_px + x) (fb_size t)) _
      (ground (arith, pitch-OnlyFb s t e, ap fb_size e))
      (plot-OnlyFb s t _ _ e
        (rw (pitch-OnlyFb s t e) (row_bound _ y x x _ _ (omega arith) (omega arith) h)))

-- A pixel of a row and a column of the framebuffer.
pub addr_bound : (y x h p : ℕ) → y < h → x < p → y * p + x < h * p
addr_bound y x h p a b = grind arith

-- The copy of all rows but the first, one row up.
pub scroll-OnlyFb :
    (s t : Screen)
    → OnlyFb s t
    → s.vga_width * glyph_w ≤ s.pitch_px
    → s.vga_height * glyph_h ≤ s.fb_height
    → 0 < s.vga_height
    → Yields (OnlyFb s) (
        for_range
          (s.vga_height * glyph_h - glyph_h)
          glyph_h
          (λ y. for_range (s.vga_width * glyph_w) 0 (copy_up y))
          t)
scroll-OnlyFb s t e hw hh hp =
    for_range_inv (λ _. OnlyFb s) _ _ 8 (s.vga_height * glyph_h) (omega arith)
      (λ y u lo hy eu.
        for_range_inv (λ _. OnlyFb s) _ _ 0 (s.vga_width * glyph_w) (omega arith)
          (λ x v _ hx ev.
            copy_up-OnlyFb s v y x ev (addr_bound y x _ _ (omega arith) (omega arith)))
          u eu)
      t e

-- A row of cells is cleared.
pub clear_row-OnlyFb :
    (s t : Screen) (n row color : ℕ)
    → OnlyFb s t
    → n * glyph_w ≤ s.pitch_px
    → row * glyph_h + 8 ≤ s.fb_height
    → Yields (OnlyFb s) (for_range n 0 (λ x. clear_cell x row color) t)
clear_row-OnlyFb s t n row color e hw hh =
    for_range_inv (λ _. OnlyFb s) _ n 0 n (omega arith)
      (λ x u _ hx eu.
        clear_cell-OnlyFb s u x row color eu (addr_bound _ _ _ _ (omega arith) (omega arith)))
      t e

-- The painting of `vga_clear_screen`.
pub fill-OnlyFb :
    (s t : Screen) (v : ℕ)
    → OnlyFb s t
    → s.fb_width ≤ s.pitch_px
    → Yields (OnlyFb s) (
        for_range s.fb_height 0
          (λ y. for_range s.fb_width 0 (λ x u. plot (y * u.pitch_px + x) v u))
          t)
fill-OnlyFb s t v e hw =
    for_range_inv (λ _. OnlyFb s) _ _ 0 s.fb_height (omega arith)
      (λ y u _ hy eu.
        for_range_inv (λ _. OnlyFb s) _ _ 0 s.fb_width (omega arith)
          (λ x w _ hx ew.
            plot-OnlyFb s w _ v ew
              (rw (pitch-OnlyFb s w ew) (addr_bound y x _ _ (omega arith) (omega arith))))
          u eu)
      t e

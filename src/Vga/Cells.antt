-- ===== src/Vga/Cells.antt =====
-- kernel/vga.c: the cells that the pixels show, and what drawing a cell does to them.
use feudos.Prelude.{
  ℕ, suc, ◌+◌, ◌-◌, ◌*◌, ◌<◌, ◌≡◌, ◌∙◌, ap, ap₂, arith, ◌&&◌, ◌==◌, ltb, if◌then◌else◌, Bool-cases,
  inl, inr, for_range, Yields, Yields-mono, for_range_inv,
}
use feudos.Vga.{Screen, draw_cell, clear_cell}
use feudos.Vga.Bounds.{OnlyFb}
use feudos.Vga.Pixels.{pixel, rectangle}
use feudos.Vga.Render.{draw_cell-glyph}
use feudos.Vga.Valid.{FitsGrid}
use feudos.Vga.Terminal.{Cells, Cell, char_cell, look, set_cell}

-- The framebuffer of `t` shows these cells in the grid of `s`.
abbrev pub Shows : Screen → Cells → Screen → Type 0
Shows s cells t =
    OnlyFb s t
    × ((r c y x : ℕ)
        → r < s.vga_height
        → c < s.vga_width
        → y < 8
        → x < 8
        → pixel t (r * 8 + y) (c * 8 + x) ≡ look s.font (cells r c) y x)

-- The pixels of a cell are those of its rectangle.
in_cell :
    (row col r c y x : ℕ)
    → y < 8
    → x < 8
    → rectangle (row * 8) (col * 8) 8 8 (r * 8 + y) (c * 8 + x) ≡ (r == row && c == col)
in_cell row col r c y x hy hx = ground arith

pub OnlyFb-trans : (s t u : Screen) → OnlyFb s t → OnlyFb t u → OnlyFb s u
OnlyFb-trans s t u e f = ground (arith, e)

-- A character drawn in a cell of the grid changes this cell.
pub draw_cell-Shows :
    (s t : Screen) (cells : Cells) (col row ch color : ℕ)
    → FitsGrid s
    → col < s.vga_width
    → row < s.vga_height
    → ch < 128
    → Shows s cells t
    → Yields (Shows s (set_cell row col (char_cell ch color) cells)) (draw_cell col row ch color t)
draw_cell-Shows s t cells col row ch color g hc hr hch (e, sh) =
    let font : t.font ≡ s.font = ap (λ (u : Screen). u.font) e in
    let pitch : t.pitch_px ≡ s.pitch_px = ap (λ (u : Screen). u.pitch_px) e in
    let tall : t.fb_height ≡ s.fb_height = ap (λ (u : Screen). u.fb_height) e in
    Yields-mono _
      (draw_cell-glyph t col row ch color hch (omega (arith, pitch, g.wide))
        (omega (arith, tall, g.tall)))
      λ u (eu, d). (
        OnlyFb-trans s t u e eu,
        λ r c y x kr kc ky kx.
            let at : c * 8 + x < t.pitch_px = omega (arith, pitch, g.wide) in
            d (r * 8 + y) (c * 8 + x) at
            ∙ rw (in_cell row col r c y x ky kx) (elim (Bool-cases (r == row && c == col)) [
              | inl here ↦
                  let dy : r * 8 + y - row * 8 ≡ y = ground arith in
                  let dx : c * 8 + x - col * 8 ≡ x = ground arith in
                  let drawn : (ℕ → ℕ → ℕ) → ℕ =
                    λ f. look f (char_cell ch color) (r * 8 + y - row * 8) (c * 8 + x - col * 8) in
                  rw here (ap drawn font ∙ ap₂ (look s.font (char_cell ch color)) dy dx)
              | inr other ↦ rw other (sh r c y x kr kc ky kx)
            ]),
      )

-- The cells that `vga_up` clears, from the first column on.
abbrev clear_first : ℕ → ℕ → Cells → Cells
clear_first row n cells r c = if r == row && ltb c n then char_cell b' ' 0x07 else cells r c

pub Shows-same :
    (s : Screen) (cells cells' : Cells) (t : Screen)
    → ((r c : ℕ) → r < s.vga_height → c < s.vga_width → cells r c ≡ cells' r c)
    → Shows s cells t
    → Shows s cells' t
Shows-same s cells cells' t same (e, sh) = (
  e,
  λ r c y x kr kc ky kx.
      sh r c y x kr kc ky kx ∙ ap (λ (k : Cell). look s.font k y x) (same r c kr kc),
)

clear_first-suc :
    (row n : ℕ) (cells : Cells) (r c : ℕ)
    → set_cell row n (char_cell b' ' 0x07) (clear_first row n cells) r c
      ≡ clear_first row (suc n) cells r c
clear_first-suc row n cells r c = ground arith

-- The loop over the last row.
pub clear_row-Shows :
    (s t : Screen) (cells : Cells) (row : ℕ)
    → FitsGrid s
    → row < s.vga_height
    → Shows s cells t
    → Yields
        (Shows s (λ r c. if r == row then char_cell b' ' 0x07 else cells r c))
        (for_range s.vga_width 0 (λ x. clear_cell x row 0x07) t)
unfolding clear_cell
clear_row-Shows s t cells row g hr h =
    Yields-mono _
      (for_range_inv (λ n. Shows s (clear_first row n cells)) _ s.vga_width 0 s.vga_width
        (omega arith)
        (λ n u _ hn p.
          Yields-mono _
            (draw_cell-Shows s u (clear_first row n cells) n row b' ' 0x07 g hn hr (omega arith) p)
            λ w q. Shows-same s _ _ w (λ r c _ _. clear_first-suc row n cells r c) q)
        t (Shows-same s cells (clear_first row 0 cells) t (λ r c _ _. ground arith) h))
      λ w q.
        Shows-same s (clear_first row s.vga_width cells)
          (λ r c. if r == row then char_cell b' ' 0x07 else cells r c) w (λ r c _ kc. ground arith)
          q

-- ===== src/Vga/Tests.antt =====
-- Runs of kernel/vga.c on small screens, and its theorems at concrete inputs.
use mathlib.Core.Option
use feudos.Prelude.{
  ◌-◌, ◌≤◌, ◌/◌, ◌%◌, ◌^◌, ◌==◌, if◌then◌else◌, ℕ, ◌≡◌, refl, Option, some, [], ◌∷◌, arith, Yields,
  for_range, ◌>>=◌,
}
use feudos.Vga.{
  Screen, vga_putc, vga_print, vga_clear_screen, fg_rgb, bg_rgb, plot, draw_row, draw_cell,
  set_line_len, next_row, tab, put_printable, vga_move_cursor,
}
use feudos.Vga.Valid.{IsValid, Printed}
use feudos.Vga.Putc.{vga_putc-Printed}
use feudos.Vga.Pixels.{Drawn, rectangle}
use feudos.Vga.Palette.{text_rgb}
use feudos.Vga.Render.{Filled, draw_cell-Drawn}
use feudos.Vga.Blank.{vga_clear_screen-blank}
use feudos.Vga.Renders.{Renders, snapshot, snapshot-Renders}
use feudos.Vga.Refine.{vga_putc-Renders}
use feudos.Vga.Terminal.{blank, print_char}
use feudos.Vga.Backspace.{backspace_leaves_grid}
use feudos.Vga.Sample.{
  last_column, last_column-IsValid, fresh, fresh-IsValid, wrapped, wrapped-IsValid, wide,
  wide-IsValid,
}
use feudos.Vga.Wide.{backspace_at_256}

abbrev cursor : Option Screen → Option (ℕ × ℕ)
cursor = Option.map (λ s. (s.cursor_column, s.cursor_row))

abbrev pixel : ℕ → Option Screen → Option ℕ
pixel i = Option.map (λ s. s.fb i)

-- The bar of the glyph is bit 4 of each row: 'A' goes to the first cell of row 1, white on black,
-- and a text with a newline and a tab moves the cursor.
printed :
    (pixel 2052 (vga_putc b'A' 15 wrapped) ≡ some 0xFFFFFF)
    × (pixel 2051 (vga_putc b'A' 15 wrapped) ≡ some 0)
    × (pixel 2056 (vga_putc b'A' 15 wrapped) ≡ some 7)
    × (cursor (vga_print (b'H' ∷ b'i' ∷ 10 ∷ 9 ∷ 0 ∷ []) 15 wrapped) ≡ some (2, 2))
unfolding vga_print vga_putc put_printable draw_cell draw_row plot fg_rgb bg_rgb set_line_len
    vga_move_cursor for_range next_row tab
printed = (refl, refl, refl, refl)

vga_putc-Printed_example : Yields (Printed fresh) (vga_putc b'A' 15 fresh)
vga_putc-Printed_example = vga_putc-Printed fresh b'A' 15 fresh-IsValid

backspace_leaves_grid_example :
    Yields
      (λ t.
        Printed last_column t
        × (t.cursor_column ≡ 32)
        × (t.cursor_row ≡ 0)
        × (t.vga_width ≤ t.cursor_column))
      (do filled ← vga_putc b'A' 15 last_column; vga_putc 8 15 filled)
backspace_leaves_grid_example =
    backspace_leaves_grid last_column b'A' 15 31 last_column-IsValid (omega arith) (omega arith)
      (omega arith) refl (omega arith) refl

-- White on black.
draw_cell-Drawn_example :
    Yields
      (Drawn
        (rectangle 8 16 8 8)
        (λ y x. if 16 / 2 ^ (x - 16) % 2 == 1 then 0xFFFFFF else 0)
        wrapped)
      (draw_cell 2 1 b'A' 15 wrapped)
unfolding text_rgb
draw_cell-Drawn_example = draw_cell-Drawn wrapped 2 1 b'A' 15 (omega arith) (omega arith)

vga_clear_screen-blank_example :
    Yields
      (λ t. IsValid t × Filled (bg_rgb 0x1F) wrapped t × Renders t (blank (bg_rgb 0x1F)))
      (vga_clear_screen 0x1F wrapped)
vga_clear_screen-blank_example = vga_clear_screen-blank 0x1F wrapped wrapped-IsValid

vga_putc-Renders_example :
    Yields
      (λ u. Printed wrapped u × Renders u (print_char 32 4 b'A' 15 (snapshot wrapped)))
      (vga_putc b'A' 15 wrapped)
vga_putc-Renders_example =
    vga_putc-Renders wrapped (snapshot wrapped) b'A' 15 wrapped-IsValid (omega arith) (omega arith)
      (λ e _ _. absurd (omega (arith, e))) (snapshot-Renders wrapped wrapped-IsValid)

backspace_at_256_example :
    Yields
      (λ t. Printed wide t × (t.cursor_column ≡ 0) × (t.cursor_row ≡ 0))
      (do filled ← vga_putc b'A' 15 wide; below ← vga_putc b'\n' 15 filled; vga_putc 8 15 below)
backspace_at_256_example =
    backspace_at_256 wide b'A' 15 wide-IsValid (omega arith) (omega arith) refl (omega arith)
      (omega arith)

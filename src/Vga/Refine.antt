-- ===== src/Vga/Refine.antt =====
-- kernel/vga.c: `vga_putc` prints on the terminal of Vga/Terminal, pixel for pixel.
use feudos.Prelude.{
  ℕ, ◌+◌, ◌-◌, ◌%◌, ◌≤◌, ◌<◌, ◌≡◌, ◌≢◌, ◌∙◌, ap, refl, sym, arith, ltb, leb, ◌==◌, ◌||◌, Bool-cases,
  inl, inr, length, Yields, Yields-bind, Yields-mono, Yields-and,
}
use feudos.Vga.{Screen, max_rows, u8, u16, next_row, tab, put_printable, vga_putc}
use feudos.Vga.Valid.{IsValid, FitsGrid, Printed}
use feudos.Vga.Putc.{vga_putc-Printed}
use feudos.Vga.Cells.{Shows, draw_cell-Shows}
use feudos.Vga.Lens.{Counts}
use feudos.Vga.Renders.{Renders, Counts-self, Repainted, at_cursor, at_cursor-Renders, move-Renders}
use feudos.Vga.Rows.{next_row-new_line}
use feudos.Vga.Terminal.{Cells, char_cell, Terminal, set_cell, new_line, forward, write, print_char}
use feudos.Vga.Erase.{mark-Counts, backspace-back}

tab-forward :
    (s : Screen) (cells : Cells) (lens : ℕ → ℕ)
    → FitsGrid s
    → length s.line_len ≡ max_rows
    → s.cursor_row < s.vga_height
    → s.cursor_column < s.vga_width
    → Shows s cells s
    → Counts s lens s
    → Yields
        (λ u. Renders u (
          forward s.vga_width s.vga_height
            (s.cursor_column + (2 - s.cursor_column % 2))
            (at_cursor s cells lens)))
        (tab s)
unfolding tab
tab-forward s cells lens g size hr hc sh h =
    let next = s.cursor_column + (2 - s.cursor_column % 2) in
    let small : u16 next ≡ next = omega (arith, g.cols_lt) in
    rw small (elim (Bool-cases (leb s.vga_width next)) [
      | inl full ↦ rw full (next_row-new_line s cells lens g size hr sh h)
      | inr room ↦ rw room (_, refl, move-Renders s cells lens next s.cursor_row sh h)
    ])

-- A repaint keeps the grid.
Repainted-FitsGrid : (s u : Screen) → Repainted s u → FitsGrid s → FitsGrid u
Repainted-FitsGrid s u (e, _) g = rw e (record {
  rows_pos = g.rows_pos;
  rows_le = g.rows_le;
  cols_pos = g.cols_pos;
  cols_lt = g.cols_lt;
  wide = g.wide;
  tall = g.tall;
  visible = g.visible;
  roomy = g.roomy;
  seen = g.seen;
})

next_row-Repainted :
    (s u : Screen) (cells : Cells) (lens : ℕ → ℕ)
    → FitsGrid s
    → s.cursor_row < s.vga_height
    → Repainted s u
    → Shows u cells u
    → Counts u lens u
    → Yields (λ w. Renders w (new_line s.vga_height (at_cursor s cells lens))) (next_row u)
next_row-Repainted s u cells lens g hr e sh h =
    let height : u.vga_height ≡ s.vga_height = ap (λ (w : Screen). w.vga_height) e.0 in
    let row : u.cursor_row ≡ s.cursor_row = ap (λ (w : Screen). w.cursor_row) e.0 in
    let col : u.cursor_column ≡ s.cursor_column = ap (λ (w : Screen). w.cursor_column) e.0 in
    let same : new_line u.vga_height (at_cursor u cells lens)
        ≡ new_line s.vga_height (at_cursor s cells lens) =
      ap (λ n. new_line n (at_cursor u cells lens)) height
      ∙ ap
          (λ r.
            new_line s.vga_height
              (record { cells = cells; lens = lens; row = r; col = u.cursor_column }))
          row
      ∙ ap
          (λ c.
            new_line s.vga_height
              (record { cells = cells; lens = lens; row = s.cursor_row; col = c }))
          col in
    Yields-mono _
      (next_row-new_line u cells lens (Repainted-FitsGrid s u e g) e.1
        (omega (arith, height, row, hr)) sh h)
      λ w r. rw (sym same) r

put_printable-write :
    (s : Screen) (cells : Cells) (lens : ℕ → ℕ) (c color : ℕ)
    → FitsGrid s
    → s.vga_width ≤ 255
    → length s.line_len ≡ max_rows
    → s.cursor_row < s.vga_height
    → s.cursor_column < s.vga_width
    → c < 128
    → Shows s cells s
    → Counts s lens s
    → Yields
        (λ u. Renders u (
          forward s.vga_width s.vga_height
            (s.cursor_column + 1)
            (write c color (at_cursor s cells lens))))
        (put_printable c color s)
unfolding put_printable
put_printable-write s cells lens c color g narrow size hr hc char sh h =
    let row = s.cursor_row in
    let next = s.cursor_column + 1 in
    let narrow8 : u8 next ≡ next = omega (arith, narrow) in
    let narrow16 : u16 next ≡ next = omega (arith, narrow) in
    let drawn = set_cell row s.cursor_column (char_cell c color) cells in
    rw (narrow8, narrow16)
      (Yields-bind _ _ (draw_cell-Shows s s cells s.cursor_column row c color g hc hr char sh)
        λ t p. rw (Counts-self s lens t p.0 h row (rw (ap (λ (w : Screen). w.vga_height) p.0) hr)) (
          Yields-bind _ _
            (mark-Counts s t drawn lens (ltb (lens row) next) row next size
              (omega (arith, g.rows_le)) p h)
            λ u (e, su, hu). elim (Bool-cases (leb s.vga_width next)) [
              | inl full ↦ rw full (next_row-Repainted s u drawn _ g hr e su hu)
              | inr room ↦ rw (room) (_, refl, move-Renders u drawn _ next row su hu)
            ]))

putc-print_char :
    (s : Screen) (cells : Cells) (lens : ℕ → ℕ) (c color : ℕ)
    → IsValid s
    → s.vga_width ≤ 255
    → s.cursor_column < s.vga_width
    → (c ≡ 8 → s.cursor_column ≡ 0 → s.cursor_row ≢ 0 → lens (s.cursor_row - 1) < s.vga_width)
    → Shows s cells s
    → Counts s lens s
    → Yields
        (λ u. Renders u (print_char s.vga_width s.vga_height c color (at_cursor s cells lens)))
        (vga_putc c color s)
unfolding vga_putc
putc-print_char s cells lens c color v narrow hc room sh h =
    let g = v.grid in
    let hr = v.cursor.0 in
    elim (Bool-cases (leb c 31 || leb 128 c)) [
      | inl control ↦ rw control (elim (Bool-cases (c == b'\n')) [
        | inl newline ↦ rw newline (next_row-new_line s cells lens g v.lens hr sh h)
        | inr other ↦ rw other (elim (Bool-cases (c == b'\t')) [
          | inl tabbed ↦ rw tabbed (tab-forward s cells lens g v.lens hr hc sh h)
          | inr plain ↦ rw plain (elim (Bool-cases (c == 8)) [
            | inl erased ↦
                rw erased
                  (backspace-back s cells lens g narrow v.lens hr hc (room (ground arith)) sh h)
            | inr ignored ↦
                rw ignored (s, refl, record { pixels = sh; counts = h; row = refl; col = refl })
          ])
        ])
      ])
      | inr glyph ↦
          rw glyph
            (put_printable-write s cells lens c color g narrow v.lens hr hc (ground arith) sh h)
    ]

-- On a valid screen of at most 255 columns that shows a terminal whose cursor is in the grid,
-- `vga_putc` does not fault, keeps the screen valid, and shows, pixel for pixel, the terminal after
-- the character: the character written, the tab, the new row, the rows moved up or the last
-- character erased. For '\b' in the first column, the count of the row above is below the width.
pub vga_putc-Renders :
    (s : Screen) (t : Terminal) (c color : ℕ)
    → IsValid s
    → s.vga_width ≤ 255
    → t.col < s.vga_width
    → (c ≡ 8 → t.col ≡ 0 → t.row ≢ 0 → t.lens (t.row - 1) < s.vga_width)
    → Renders s t
    → Yields
        (λ u. Printed s u × Renders u (print_char s.vga_width s.vga_height c color t))
        (vga_putc c color s)
vga_putc-Renders s t c color v narrow hc room r = Yields-and _ (vga_putc-Printed s c color v) (
    rw (ap (print_char s.vga_width s.vga_height c color) (at_cursor-Renders s t r)) (
      putc-print_char s t.cells t.lens c color v narrow (rw r.col hc) (rw (r.col, r.row) room)
        r.pixels r.counts))

-- ===== src/Vga/Wide.antt =====
-- kernel/vga.c on a screen of more than 256 columns: the counts of `line_len` are bytes.
use feudos.Prelude.{
  ℕ, ◌+◌, ◌-◌, ◌<◌, ◌≤◌, ◌≡◌, ◌∙◌, refl, ap, false, true, some, arith, ltb, leb, ◌||◌, length,
  get_elem?, get_elem?-AllLe, get_elem?-set_self, lt→ltb, ◌>>=◌, Yields, Yields-bind, Yields-mono,
}
use feudos.Vga.{
  Screen, max_rows, vga_putc, put_printable, set_line_len, next_row, vga_move_cursor, u8, u16,
}
use feudos.Vga.Bounds.{draw_cell-OnlyFb}
use feudos.Vga.Valid.{IsValid, InReach-InFb, Printed, Printed-trans}
use feudos.Vga.Putc.{vga_putc-Printed}
use feudos.Vga.Backspace.{backspace_cursor}

-- The count of a row that is filled up to column 255.
put-255 :
    (s : Screen) (c color : ℕ)
    → IsValid s
    → 32 ≤ c
    → c < 128
    → s.cursor_column ≡ 255
    → 256 < s.vga_width
    → Yields
        (λ t. (get_elem? t.line_len s.cursor_row ≡ some 0) × (t.cursor_row ≡ s.cursor_row))
        (vga_putc c color s)
unfolding vga_putc put_printable set_line_len vga_move_cursor
put-255 s c color v lo hi at wide =
    let glyph : (leb c 31 || leb 128 c) ≡ false = ground arith in
    let row_in : s.cursor_row < length s.line_len =
      omega (arith, v.cursor.0, v.lens, v.grid.rows_le) in
    let (len, el, le) = get_elem?-AllLe 255 s.line_len s.cursor_row v.lens_le row_in in
    let cut : ltb len (s.cursor_column + 1) ≡ true =
      lt→ltb len (s.cursor_column + 1) (omega (arith, at)) in
    let wrap : u8 (s.cursor_column + 1) ≡ 0 = omega (arith, at) in
    let within : leb s.vga_width (u16 (s.cursor_column + 1)) ≡ false = ground (arith, at) in
    rw glyph (
      Yields-bind _ _
        (draw_cell-OnlyFb s s s.cursor_column s.cursor_row c color refl hi
          (InReach-InFb s _ _ v.grid v.cursor))
        λ t e.
          rw (e, el, cut, lt→ltb _ _ row_in, within, wrap)
            (_, refl, (get_elem?-set_self s.line_len s.cursor_row 0 row_in, refl)))

-- A newline that does not scroll.
pub newline_below :
    (s : Screen) (color : ℕ)
    → s.cursor_row + 1 < s.vga_height
    → s.vga_height ≤ max_rows
    → vga_putc b'\n' color s ≡ some (vga_move_cursor 0 (s.cursor_row + 1) s)
unfolding vga_putc next_row
newline_below s color room rows =
    let row : u16 (s.cursor_row + 1) ≡ s.cursor_row + 1 = omega arith in
    let within : leb s.vga_height (s.cursor_row + 1) ≡ false = ground arith in rw (row, within) refl

-- On a valid screen of more than 256 columns, where the character at column 255 of a row that is not
-- the last is followed by a newline, a '\b' does not fault, but leaves the cursor in the first column
-- of that row, and not behind the character.
pub backspace_at_256 :
    (s : Screen) (c color : ℕ)
    → IsValid s
    → 32 ≤ c
    → c < 128
    → s.cursor_column ≡ 255
    → s.cursor_row + 1 < s.vga_height
    → 256 < s.vga_width
    → Yields
        (λ t. Printed s t × (t.cursor_column ≡ 0) × (t.cursor_row ≡ s.cursor_row))
        (do
          filled ← vga_putc c color s
          below ← vga_putc b'\n' color filled
          vga_putc 8 color below)
unfolding vga_move_cursor
backspace_at_256 s c color v lo hi at room wide =
    let (t, et, (len, row)) = put-255 s c color v lo hi at wide in
    let (t', et', pt) = vga_putc-Printed s c color v in
    let p : Printed s t = (let same : t' ≡ t = cc (et, et') in rw same at pt) in
    let height : t.vga_height ≡ s.vga_height = ap (λ (u : Screen). u.vga_height) p.same in
    let below = vga_move_cursor 0 (t.cursor_row + 1) t in
    let eb : vga_putc b'\n' color t ≡ some below =
      newline_below t color (omega (arith, row, height)) p.valid.grid.rows_le in
    let (u', eu', qu) = vga_putc-Printed t b'\n' color p.valid in
    let q : Printed t below = (let same : u' ≡ below = cc (eb, eu') in rw same at qu) in
    rw (et, eb)
      (Yields-mono (vga_putc 8 color below) (backspace_cursor color below q.valid)
        λ w (pw, within, above, top).
          let back : t.cursor_row + 1 - 1 ≡ s.cursor_row = omega (arith, row) in
          let (column, up) = above 0 refl (omega arith) (rw back len) in
          (Printed-trans s t w p (Printed-trans t below w q pw), column, up ∙ back))

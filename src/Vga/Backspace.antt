-- ===== src/Vga/Backspace.antt =====
-- kernel/vga.c, the '\b' of `vga_putc`: where it leaves the cursor.
use Prim.Native.Nat.{max}
use feudos.Prelude.{
  ◌+◌, ◌<◌, ◌≤◌, ◌||◌, leb, true, false, length, lt→ltb, Yields-bind, get_elem?-set_self,
  Bool-cases, inl, inr, ◌>>=◌, sym, ◌∙◌, ne→==false, ==_iff, Yields-mono, ℕ, ◌-◌, ◌≡◌, ◌≢◌, refl,
  ap, some, arith, ltb, if◌then◌else◌, get_elem?, bind-eq-some, Yields,
}
use feudos.Vga.{
  put_printable, next_row, u16, Screen, vga_putc, backspace, erase_at, clear_cell, set_line_len,
  vga_move_cursor, u8,
}
use feudos.Vga.Bounds.{draw_cell-OnlyFb}
use feudos.Vga.Valid.{IsValid, Printed, Printed-trans, InReach-InFb}
use feudos.Vga.Putc.{vga_putc-Printed}

-- The cursor is at the cell that was erased.
erase_at-cursor :
    (column row : ℕ) (s : Screen) {t : Screen}
    → erase_at column row s ≡ some t
    → (t.cursor_column ≡ column) × (t.cursor_row ≡ row)
unfolding erase_at vga_move_cursor
erase_at-cursor column row s {t} e =
    let (cleared, _, f) = bind-eq-some (clear_cell column row 0 s) _ e in
    let (len, _, g) = bind-eq-some (get_elem? cleared.line_len row) _ f in
    let (cut, _, h) =
      bind-eq-some (if ltb column len then set_line_len row (u8 column) cleared else some cleared) _
        g in
    (ground arith, ground arith)

vga_putc-backspace : (color : ℕ) (s : Screen) → vga_putc 8 color s ≡ backspace s
unfolding vga_putc
vga_putc-backspace color s = refl

-- The three ways of '\b'.
backspace_within :
    (s : Screen) → s.cursor_column ≢ 0 → backspace s ≡ erase_at (s.cursor_column - 1) s.cursor_row s
unfolding backspace
backspace_within s h = rw (ne→==false s.cursor_column 0 h)

backspace_above :
    (s : Screen) (len : ℕ)
    → s.cursor_column ≡ 0
    → s.cursor_row ≢ 0
    → get_elem? s.line_len (s.cursor_row - 1) ≡ some len
    → backspace s ≡ erase_at len (s.cursor_row - 1) s
unfolding backspace
backspace_above s len hc hr e =
    rw ((==_iff s.cursor_column 0).1 hc, ne→==false s.cursor_row 0 hr, e)

backspace_origin : (s : Screen) → s.cursor_column ≡ 0 → s.cursor_row ≡ 0 → backspace s ≡ some s
unfolding backspace
backspace_origin s hc hr = rw ((==_iff s.cursor_column 0).1 hc, (==_iff s.cursor_row 0).1 hr)

-- On a valid screen '\b' does not fault. Away from the first column it moves the cursor one
-- column back; in the first column of a row below the top it moves the cursor to the row above,
-- behind the characters that `line_len` counts there; at the origin it changes nothing.
pub backspace_cursor :
    (color : ℕ) (s : Screen)
    → IsValid s
    → Yields
        (λ t.
          Printed s t
          × (s.cursor_column ≢ 0
              → (t.cursor_column ≡ s.cursor_column - 1) × (t.cursor_row ≡ s.cursor_row))
          × ((len : ℕ)
              → s.cursor_column ≡ 0
              → s.cursor_row ≢ 0
              → get_elem? s.line_len (s.cursor_row - 1) ≡ some len
              → (t.cursor_column ≡ len) × (t.cursor_row ≡ s.cursor_row - 1))
          × (s.cursor_column ≡ 0 → s.cursor_row ≡ 0 → t ≡ s))
        (vga_putc 8 color s)
backspace_cursor color s v =
    let (t, e, p) = vga_putc-Printed s 8 color v in
    let e' : backspace s ≡ some t = sym (vga_putc-backspace color s) ∙ e in
    (
      t,
      e,
      (
        p,
        (λ hc.
            erase_at-cursor (s.cursor_column - 1) s.cursor_row s
              (sym (backspace_within s hc) ∙ e')),
        (λ len hc hr hl.
            erase_at-cursor len (s.cursor_row - 1) s (sym (backspace_above s len hc hr hl) ∙ e')),
        λ hc hr. cc (backspace_origin s hc hr, e'),
      ),
    )

-- The count and the cursor after the character of the last column.
put_last :
    (s : Screen) (c color len : ℕ)
    → IsValid s
    → 32 ≤ c
    → c < 128
    → s.vga_width ≤ 255
    → s.cursor_column + 1 ≡ s.vga_width
    → s.cursor_row + 1 < s.vga_height
    → get_elem? s.line_len s.cursor_row ≡ some len
    → Yields
        (λ t.
          (get_elem? t.line_len s.cursor_row ≡ some (max len s.vga_width))
          × (t.cursor_column ≡ 0)
          × (t.cursor_row ≡ s.cursor_row + 1))
        (vga_putc c color s)
unfolding vga_putc put_printable set_line_len next_row vga_move_cursor
put_last s c color len v lo hi narrow at room el =
    let glyph : (leb c 31 || leb 128 c) ≡ false = ground arith in
    let row_in : s.cursor_row < length s.line_len =
      omega (arith, v.cursor.0, v.lens, v.grid.rows_le) in
    let column : u8 (s.cursor_column + 1) ≡ s.vga_width = omega (arith, at) in
    let full : leb s.vga_width (u16 (s.cursor_column + 1)) ≡ true = ground (arith, at) in
    let row : u16 (s.cursor_row + 1) ≡ s.cursor_row + 1 = omega (arith, v.grid.rows_le) in
    let within : leb s.vga_height (s.cursor_row + 1) ≡ false = ground arith in
    rw glyph (
      Yields-bind _ _
        (draw_cell-OnlyFb s s s.cursor_column s.cursor_row c color refl hi
          (InReach-InFb s _ _ v.grid v.cursor))
        λ t e.
          rw (e, el)
            (elim (Bool-cases (ltb len (s.cursor_column + 1))) [
              | inl less ↦
                  let most : max len s.vga_width ≡ s.vga_width = ground (arith, at) in
                  rw (less, lt→ltb _ _ row_in, column, full, row, within, most)
                    (
                      _,
                      refl,
                      (get_elem?-set_self s.line_len s.cursor_row s.vga_width row_in, refl, refl),
                    )
              | inr more ↦
                  let most : max len s.vga_width ≡ len = ground (arith, at) in
                  rw (more, full, row, within, most) (_, refl, (el, refl, refl))
            ]))

-- On a valid screen of at most 255 columns, where the character of the last column of a row that is
-- not the last is followed by a '\b', nothing faults, but the cursor is then in this row at the larger
-- one of the count that it had and the number of columns, so outside the grid.
pub backspace_leaves_grid :
    (s : Screen) (c color len : ℕ)
    → IsValid s
    → 32 ≤ c
    → c < 128
    → s.vga_width ≤ 255
    → s.cursor_column + 1 ≡ s.vga_width
    → s.cursor_row + 1 < s.vga_height
    → get_elem? s.line_len s.cursor_row ≡ some len
    → Yields
        (λ t.
          Printed s t
          × (t.cursor_column ≡ max len s.vga_width)
          × (t.cursor_row ≡ s.cursor_row)
          × (t.vga_width ≤ t.cursor_column))
        (do filled ← vga_putc c color s; vga_putc 8 color filled)
backspace_leaves_grid s c color len v lo hi narrow at room el =
    let (t, et, (count, column, row)) = put_last s c color len v lo hi narrow at room el in
    let (t', et', pt) = vga_putc-Printed s c color v in
    let p : Printed s t = (let same : t' ≡ t = cc (et, et') in rw same at pt) in
    let back : t.cursor_row - 1 ≡ s.cursor_row = omega (arith, row) in
    rw et (
      Yields-mono (vga_putc 8 color t) (backspace_cursor color t p.valid) λ w (pw, _, above, _).
        let (at_count, up) =
          above (max len s.vga_width) column (omega (arith, row)) (rw back count) in
        let q = Printed-trans s t w p pw in
        let width : w.vga_width ≡ s.vga_width = ap (λ (u : Screen). u.vga_width) q.same in
        (q, at_count, up ∙ back, omega (arith, at_count, width)))

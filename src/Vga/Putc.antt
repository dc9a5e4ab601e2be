-- ===== src/Vga/Putc.antt =====
-- kernel/vga.c: `vga_putc` and `vga_print` do not fault, and keep the invariant.
use feudos.Prelude.{
  ℕ, ◌+◌, ◌-◌, ◌%◌, ◌<◌, ◌≡◌, refl, inl, inr, Bool, true, false, Option, arith, ltb, leb,
  if◌then◌else◌, Yields, Yields-bind, Yields-mono, get_elem?-AllLe, ◌==◌, ◌||◌,
}
use feudos.Vga.{
  Screen, vga_up, next_row, u8, u16, tab, erase_at, backspace, put_printable, vga_putc,
}
use feudos.Vga.Bounds.{draw_cell-OnlyFb, clear_cell-OnlyFb}
use feudos.Vga.Valid.{
  IsValid, InReach, InReach-InFb, Redrawn, Redrawn-refl, Redrawn-OnlyFb, vga_up-Redrawn,
  set_line_len-Redrawn, Printed, Printed-move, Printed-Redrawn, IsValid-Redrawn,
}

-- Both branches of a test.
Yields-if :
    {P : Screen → Type 0} (b : Bool) (m n : Option Screen)
    → (b ≡ true → Yields P m)
    → (b ≡ false → Yields P n)
    → Yields P (if b then m else n)
Yields-if true m n k l = k refl
Yields-if false m n k l = l refl

-- The cursor goes to the start of a row of the grid.
pub next_row-Printed : (s : Screen) → IsValid s → Yields (Printed s) (next_row s)
unfolding next_row
next_row-Printed s v =
    Yields-if (leb s.vga_height (u16 (s.cursor_row + 1))) _ _
      (λ full. Yields-bind (vga_up s) _ (vga_up-Redrawn s v) λ t r. (
        _,
        refl,
        Printed-move s t 0 (u16 (s.vga_height - 1)) v r (omega arith, inl v.grid.cols_pos),
      ))
      (λ room. (
        _,
        refl,
        Printed-move s s 0 (u16 (s.cursor_row + 1)) v (Redrawn-refl s v)
            (ground arith, inl v.grid.cols_pos),
      ))

pub tab-Printed : (s : Screen) → IsValid s → Yields (Printed s) (tab s)
unfolding tab
tab-Printed s v =
    Yields-if (leb s.vga_width (u16 (s.cursor_column + (2 - s.cursor_column % 2)))) _ _
      (λ full. next_row-Printed s v)
      (λ room. (
        _,
        refl,
        Printed-move s s _ s.cursor_row v (Redrawn-refl s v) (v.cursor.0, inl (ground arith)),
      ))

-- The cell to delete is in reach, and so is the cursor afterwards.
pub erase_at-Printed :
    (s : Screen) (column row : ℕ)
    → IsValid s
    → InReach column row s
    → Yields (Printed s) (erase_at column row s)
unfolding erase_at
erase_at-Printed s column row v h =
    Yields-bind _ _ (clear_cell-OnlyFb s s column row 0 refl (InReach-InFb s column row v.grid h))
      λ t e.
        let r : Redrawn s t = Redrawn-OnlyFb s s t (Redrawn-refl s v) e in
        let (len, el, le) =
          get_elem?-AllLe 255 t.line_len row r.lens_le
            (omega (arith, h.0, r.lens, v.grid.rows_le)) in
        rw el (
          Yields-bind _ _
            (Yields-if (ltb column len) _ _
              (λ cut.
                set_line_len-Redrawn s t row (u8 column) r (omega (arith, h.0, v.grid.rows_le))
                  (omega arith))
              (λ keep. (t, refl, r)))
            λ u ru. (_, refl, Printed-move s u column row v ru h))

-- '\b' in the first column goes back to what `line_len` says of the row above, which may lie
-- behind the grid.
pub backspace-Printed : (s : Screen) → IsValid s → Yields (Printed s) (backspace s)
unfolding backspace
backspace-Printed s v =
    Yields-if (s.cursor_column == 0) _ _
      (λ first.
        Yields-if (s.cursor_row == 0) _ _ (λ top. (s, refl, record { valid = v; same = refl }))
          (λ below.
            let (len, el, le) =
              get_elem?-AllLe 255 s.line_len (s.cursor_row - 1) v.lens_le
                (omega (arith, v.cursor.0, v.lens, v.grid.rows_le)) in
            rw el (
              erase_at-Printed s len (s.cursor_row - 1) v
                (omega (arith, v.cursor.0), inr (le, ground (arith, v.cursor.0))))))
      (λ behind.
        erase_at-Printed s (s.cursor_column - 1) s.cursor_row v
          (v.cursor.0, ground (arith, v.cursor.1)))

pub put_printable-Printed :
    (s : Screen) (c color : ℕ) → IsValid s → c < 128 → Yields (Printed s) (put_printable c color s)
unfolding put_printable
put_printable-Printed s c color v hc =
    Yields-bind _ _
      (draw_cell-OnlyFb s s s.cursor_column s.cursor_row c color refl hc
        (InReach-InFb s _ _ v.grid v.cursor))
      λ t e.
        let r : Redrawn s t = Redrawn-OnlyFb s s t (Redrawn-refl s v) e in
        let (len, el, le) =
          get_elem?-AllLe 255 t.line_len s.cursor_row r.lens_le
            (omega (arith, v.cursor.0, r.lens, v.grid.rows_le)) in
        rw el (
          Yields-bind _ _
            (Yields-if (ltb len (s.cursor_column + 1)) _ _
              (λ cut.
                set_line_len-Redrawn s t s.cursor_row (u8 (s.cursor_column + 1)) r
                  (omega (arith, v.cursor.0, v.grid.rows_le)) (omega arith))
              (λ keep. (t, refl, r)))
            λ u ru.
              Yields-if (leb s.vga_width (u16 (s.cursor_column + 1))) _ _
                (λ full.
                  Yields-mono (next_row u) (next_row-Printed u (IsValid-Redrawn s u v ru))
                    (λ w p. Printed-Redrawn s u w ru p))
                (λ room. (
                  _,
                  refl,
                  Printed-move s u _ s.cursor_row v ru
                      (v.cursor.0, inl (ground (arith, v.cursor.1))),
                )))

-- On a valid screen `vga_putc` accepts every byte and every colour: all its reads and writes lie
-- in the framebuffer, in `line_len` and in the font, the screen stays valid, and only the
-- framebuffer, `line_len` and the cursor change.
pub vga_putc-Printed :
    (s : Screen) (c color : ℕ) → IsValid s → Yields (Printed s) (vga_putc c color s)
unfolding vga_putc
vga_putc-Printed s c color v =
    Yields-if (leb c 31 || leb 128 c) _ _
      (λ control.
        Yields-if (c == b'\n') _ _ (λ _. next_row-Printed s v)
          λ _.
            Yields-if (c == b'\t') _ _ (λ _. tab-Printed s v)
              λ _.
                Yields-if (c == 8) _ _ (λ _. backspace-Printed s v)
                  λ _. (s, refl, record { valid = v; same = refl }))
      (λ glyph. put_printable-Printed s c color v (ground arith))

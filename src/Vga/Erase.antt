-- ===== src/Vga/Erase.antt =====
-- kernel/vga.c, '\b' and the counts of `line_len`, on the terminal that the screen shows.
use feudos.Prelude.{
  ℕ, ◌-◌, ◌≤◌, ◌<◌, ◌≡◌, ◌≢◌, ◌∙◌, ap, refl, arith, Bool, true, false, ltb, ◌==◌, if◌then◌else◌,
  Bool-cases, inl, inr, length, some, Yields, Yields-bind, Yields-mono,
}
use feudos.Vga.{Screen, max_rows, u8, clear_cell, set_line_len, erase_at, backspace}
use feudos.Vga.Valid.{FitsGrid}
use feudos.Vga.Cells.{Shows, draw_cell-Shows}
use feudos.Vga.Lens.{Counts, set_line_len-Counts}
use feudos.Vga.Renders.{
  Renders, Shows-self, Shows-lens, Counts-self, Counts-lens, Repainted, Repainted-trans, at_cursor,
  move-Renders,
}
use feudos.Vga.Terminal.{Cells, char_cell, set_cell, set_len, erase, back}

-- The count of the row of a drawn cell, set or left.
pub mark-Counts :
    (s t : Screen) (cells : Cells) (lens : ℕ → ℕ) (b : Bool) (row v : ℕ)
    → length s.line_len ≡ max_rows
    → row < max_rows
    → Shows s cells t
    → Counts s lens s
    → Yields
        (λ u. Repainted s u × Shows u cells u × Counts u (if b then set_len row v lens else lens) u)
        (if b then set_line_len row v t else some t)
mark-Counts s t cells lens true row v size hr p h =
    Yields-mono _
      (set_line_len-Counts t t lens row v (refl, ap (λ (w : Screen). length w.line_len) p.0 ∙ size)
        hr (Counts-self s lens t p.0 h))
      λ u (eu, hu). (
        Repainted-trans s t u p.0 eu,
        Shows-lens cells t u (Shows-self s cells t p) eu,
        Counts-lens (set_len row v lens) t u eu hu,
      )
mark-Counts s t cells lens false row v size hr p h = (
  t,
  refl,
  (
    Repainted-trans s t t p.0 (refl, ap (λ (w : Screen). length w.line_len) p.0 ∙ size),
    Shows-self s cells t p,
    Counts-self s lens t p.0 h,
  ),
)

erase_at-erase :
    (s : Screen) (cells : Cells) (lens : ℕ → ℕ) (col row : ℕ)
    → FitsGrid s
    → s.vga_width ≤ 256
    → length s.line_len ≡ max_rows
    → col < s.vga_width
    → row < s.vga_height
    → Shows s cells s
    → Counts s lens s
    → Yields (λ u. Renders u (erase col row (at_cursor s cells lens))) (erase_at col row s)
unfolding erase_at clear_cell
erase_at-erase s cells lens col row g narrow size hc hr sh h =
    let small : u8 col ≡ col = omega arith in
    rw small (
      Yields-bind _ _ (draw_cell-Shows s s cells col row b' ' 0 g hc hr (omega arith) sh) λ t p.
        rw (Counts-self s lens t p.0 h row (rw (ap (λ (w : Screen). w.vga_height) p.0) hr)) (
          Yields-bind _ _
            (mark-Counts s t (set_cell row col (char_cell b' ' 0) cells) lens (ltb col (lens row))
              row col size (omega (arith, g.rows_le)) p h)
            λ u (_, su, hu). (
              _,
              refl,
              move-Renders u (set_cell row col (char_cell b' ' 0) cells) _ col row su hu,
            )))

pub backspace-back :
    (s : Screen) (cells : Cells) (lens : ℕ → ℕ)
    → FitsGrid s
    → s.vga_width ≤ 255
    → length s.line_len ≡ max_rows
    → s.cursor_row < s.vga_height
    → s.cursor_column < s.vga_width
    → (s.cursor_column ≡ 0 → s.cursor_row ≢ 0 → lens (s.cursor_row - 1) < s.vga_width)
    → Shows s cells s
    → Counts s lens s
    → Yields (λ u. Renders u (back (at_cursor s cells lens))) (backspace s)
unfolding backspace
backspace-back s cells lens g narrow size hr hc room sh h =
    elim (Bool-cases (s.cursor_column == 0)) [
      | inl first ↦ rw first (elim (Bool-cases (s.cursor_row == 0)) [
        | inl top ↦ rw top (s, refl, record { pixels = sh; counts = h; row = refl; col = refl })
        | inr below ↦
            let above : s.cursor_row - 1 < s.vga_height = omega (arith, hr) in
            rw (below, h (s.cursor_row - 1) above)
              (erase_at-erase s cells lens (lens (s.cursor_row - 1)) (s.cursor_row - 1) g
                (omega (arith, narrow)) size (room (ground arith) (ground arith)) above sh h)
      ])
      | inr behind ↦ rw behind (
          erase_at-erase s cells lens (s.cursor_column - 1) s.cursor_row g (omega (arith, narrow))
            size (omega (arith, hc)) hr sh h)
    ]

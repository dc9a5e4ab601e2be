-- ===== src/Vga/Rows.antt =====
-- kernel/vga.c, `vga_up` and `next_row`, on the terminal that the screen shows.
use feudos.Prelude.{
  ℕ, ◌+◌, ◌-◌, ◌<◌, ◌≡◌, ◌∙◌, ap, refl, sym, arith, Bool, true, false, leb, ◌==◌, if◌then◌else◌,
  Bool-cases, inl, inr, length, some, ◌>>=◌, for_range, Yields, Yields-bind, Yields-mono, lt→ltb,
}
use feudos.Vga.{Screen, max_rows, u16, clear_cell, set_line_len, shift_len, vga_up, next_row}
use feudos.Vga.Valid.{FitsGrid}
use feudos.Vga.Cells.{Shows, Shows-same, clear_row-Shows}
use feudos.Vga.Scroll.{move_rows-Shows}
use feudos.Vga.Lens.{Counts, shift-Counts}
use feudos.Vga.Terminal.{Cell, Cells, char_cell, up, up_lens, new_line}
use feudos.Vga.Renders.{
  Renders, Shows-self, Shows-lens, Counts-self, Counts-lens, Repainted, Repainted-trans, at_cursor,
  move-Renders,
}

-- The last row is cleared after the move.
abbrev shifted_cells : ℕ → Cells → Cells
shifted_cells height cells r c = if r == height - 1 then cells r c else cells (r + 1) c

clear_last :
    (s a : Screen) (cells : Cells)
    → FitsGrid s
    → Shows s (shifted_cells s.vga_height cells) a
    → Yields
        (Shows s (up s.vga_height cells))
        (for_range a.vga_width 0 (λ x. clear_cell x (s.vga_height - 1) 0x07) a)
clear_last s a cells g p =
    let last = s.vga_height - 1 in
    let mid = shifted_cells s.vga_height cells in
    let width : a.vga_width ≡ s.vga_width = ap (λ (u : Screen). u.vga_width) p.0 in
    rw (ap (λ n. for_range n 0 (λ x. clear_cell x last 0x07) a) width) (
      Yields-mono _ (clear_row-Shows s a mid last g (omega (arith, g.rows_pos)) p) λ b q.
        Shows-same s (λ r c. if r == last then char_cell b' ' 0x07 else mid r c)
          (up s.vga_height cells) b (λ r c _ _. if_again (r == last) _ _ _) q)
  where
    if_again :
        (b : Bool) (k l m : Cell) → (if b then k else if b then l else m) ≡ (if b then k else m)
    if_again true k l m = refl
    if_again false k l m = refl

shift_last :
    (s b : Screen) (cells : Cells) (lens : ℕ → ℕ)
    → FitsGrid s
    → length s.line_len ≡ max_rows
    → Shows s cells b
    → Counts s lens s
    → Yields
        (λ u. Repainted s u × Shows u cells u × Counts u (up_lens s.vga_height lens) u)
        (do
          shifted ← for_range (s.vga_height - 1) 1 shift_len b
          set_line_len (s.vga_height - 1) 0 shifted)
shift_last s b cells lens g size p h =
    let height : b.vga_height ≡ s.vga_height = ap (λ (u : Screen). u.vga_height) p.0 in
    let same : length b.line_len ≡ max_rows = ap (λ (u : Screen). length u.line_len) p.0 ∙ size in
    let program =
      λ (n : ℕ). (do shifted ← for_range (n - 1) 1 shift_len b; set_line_len (n - 1) 0 shifted) in
    rw (ap program (sym height)) (
      Yields-mono _
        (shift-Counts b b lens (omega (arith, height, g.rows_pos))
          (omega (arith, height, g.rows_le)) (refl, same) (Counts-self s lens b p.0 h))
        λ u (eu, hu). (
          Repainted-trans s b u p.0 eu,
          Shows-lens cells b u (Shows-self s cells b p) eu,
          Counts-lens (up_lens s.vga_height lens) b u eu
              (λ r kr. hu r kr ∙ ap (λ n. some (up_lens n lens r)) height),
        ))

-- `vga_up` moves the rows of cells and their counts up.
vga_up-up :
    (s : Screen) (cells : Cells) (lens : ℕ → ℕ)
    → FitsGrid s
    → length s.line_len ≡ max_rows
    → Shows s cells s
    → Counts s lens s
    → Yields
        (λ u.
          Repainted s u
          × Shows u (up s.vga_height cells) u
          × Counts u (up_lens s.vga_height lens) u)
        (vga_up s)
unfolding vga_up
vga_up-up s cells lens g size sh h = rw (lt→ltb 0 s.vga_height g.rows_pos) (
    Yields-bind _ _ (move_rows-Shows s cells g sh) λ a pa.
      Yields-bind _ _ (clear_last s a cells g pa)
        λ b pb. shift_last s b (up s.vga_height cells) lens g size pb h)

pub next_row-new_line :
    (s : Screen) (cells : Cells) (lens : ℕ → ℕ)
    → FitsGrid s
    → length s.line_len ≡ max_rows
    → s.cursor_row < s.vga_height
    → Shows s cells s
    → Counts s lens s
    → Yields (λ u. Renders u (new_line s.vga_height (at_cursor s cells lens))) (next_row s)
unfolding next_row
next_row-new_line s cells lens g size hr sh h =
    let small : u16 (s.cursor_row + 1) ≡ s.cursor_row + 1 = omega (arith, g.rows_le) in
    let last : u16 (s.vga_height - 1) ≡ s.vga_height - 1 = omega (arith, g.rows_le) in
    rw (small, last)
      (elim (Bool-cases (leb s.vga_height (s.cursor_row + 1))) [
        | inl full ↦ rw full (
            Yields-bind (vga_up s) _ (vga_up-up s cells lens g size sh h) λ u (_, su, hu). (
              _,
              refl,
              move-Renders u (up s.vga_height cells) (up_lens s.vga_height lens) 0 _ su hu,
            ))
        | inr room ↦ rw room (_, refl, move-Renders s cells lens 0 (s.cursor_row + 1) sh h)
      ])

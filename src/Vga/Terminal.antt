-- ===== src/Vga/Terminal.antt =====
-- What kernel/vga.c promises: a terminal of cells, without pixels.
use feudos.Prelude.{ℕ, ◌+◌, ◌-◌, ◌%◌, ◌&&◌, ◌||◌, ltb, leb, ◌==◌, if◌then◌else◌}
use feudos.Vga.{bit_set, fg_rgb, bg_rgb}

-- A cell with any pixels, or with a character in the colours of an attribute.
pub data Cell : Type 0 where
  picture : (ℕ → ℕ → ℕ) → Cell
  char_cell : ℕ → ℕ → Cell

-- The colour of a pixel of a cell.
abbrev pub look : (ℕ → ℕ → ℕ) → Cell → ℕ → ℕ → ℕ
look font (picture f) y x = f y x
look font (char_cell c color) y x = if bit_set (font c y) x then fg_rgb color else bg_rgb color

-- The cell in a row and a column.
abbrev pub Cells : Type 0
Cells = ℕ → ℕ → Cell

abbrev pub set_cell : ℕ → ℕ → Cell → Cells → Cells
set_cell row col cell cells r c = if r == row && c == col then cell else cells r c

-- `lens` counts the characters written in each row.
pub record Terminal : Type 0 where
  pub cells : Cells
  pub lens : ℕ → ℕ
  pub row : ℕ
  pub col : ℕ

-- Every cell in one colour, and the cursor in the first.
abbrev pub blank : ℕ → Terminal
blank rgb = record { cells = λ _ _. picture (λ _ _. rgb); lens = λ _. 0; row = 0; col = 0 }

abbrev pub set_len : ℕ → ℕ → (ℕ → ℕ) → ℕ → ℕ
set_len row n lens r = if r == row then n else lens r

-- The rows move up, and the last one is cleared.
abbrev pub up : ℕ → Cells → Cells
up height cells r c = if r == height - 1 then char_cell b' ' 0x07 else cells (r + 1) c

abbrev pub up_lens : ℕ → (ℕ → ℕ) → ℕ → ℕ
up_lens height lens r = if r == height - 1 then 0 else lens (r + 1)

-- The cursor goes to the start of the next row; from the last row the rows move up.
abbrev pub new_line : ℕ → Terminal → Terminal
new_line height t =
    if leb height (t.row + 1)
    then record t {
      cells = up height t.cells;
      lens = up_lens height t.lens;
      row = height - 1;
      col = 0;
    }
    else record t { row = t.row + 1; col = 0 }

-- The cursor goes to a column, or to the next row where there is no such column.
abbrev pub forward : ℕ → ℕ → ℕ → Terminal → Terminal
forward width height col t = if leb width col then new_line height t else record t { col = col }

abbrev pub write : ℕ → ℕ → Terminal → Terminal
write c color t = record t {
  cells = set_cell t.row t.col (char_cell c color) t.cells;
  lens = if ltb (t.lens t.row) (t.col + 1) then set_len t.row (t.col + 1) t.lens else t.lens;
}

-- A cell is cleared, the count of its row cut, and the cursor put there.
abbrev pub erase : ℕ → ℕ → Terminal → Terminal
erase col row t = record t {
  cells = set_cell row col (char_cell b' ' 0) t.cells;
  lens = if ltb col (t.lens row) then set_len row col t.lens else t.lens;
  row = row;
  col = col;
}

abbrev pub back : Terminal → Terminal
back t =
    if t.col == 0
    then if t.row == 0 then t else erase (t.lens (t.row - 1)) (t.row - 1) t
    else erase (t.col - 1) t.row t

-- A character on a terminal of this width and height.
abbrev pub print_char : ℕ → ℕ → ℕ → ℕ → Terminal → Terminal
print_char width height c color t =
    if leb c 31 || leb 128 c
    then (if c == b'\n'
        then new_line height t
        else if c == b'\t'
        then forward width height (t.col + (2 - t.col % 2)) t
        else if c == 8
        then back t
        else t)
    else forward width height (t.col + 1) (write c color t)

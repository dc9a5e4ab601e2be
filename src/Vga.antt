-- ===== src/Vga.antt =====
-- kernel/vga.c up to `vga_print`: the text screen on the boot loader's framebuffer.
-- The proofs are in the modules below.
pub mod Color
pub mod Bounds
pub mod Valid
pub mod Putc
pub mod Text
pub mod Setup
pub mod Backspace
pub mod Palette
pub mod Pixels
pub mod Render
pub mod Terminal
pub mod Cells
pub mod Scroll
pub mod Lens
pub mod Renders
pub mod Rows
pub mod Blank
pub mod Erase
pub mod Refine
pub mod Typed
pub mod Wide
pub mod Sample
mod Tests
use feudos.Prelude.{
  ℕ, zero, suc, ◌+◌, ◌-◌, ◌*◌, ◌/◌, ◌%◌, ◌^◌, Bool, ◌||◌, Option, none, some, List, [], ◌∷◌, ltb,
  leb, ◌==◌, if◌then◌else◌, length, get_elem?, get_or, set, replicate, ◌>>=◌, check, store,
  for_range,
}

-- `struct limine_framebuffer`, as far as the code reads it: sizes in pixels, `pitch` in bytes, the
-- 32-bit words at `address`.
pub record Framebuffer : Type 0 where
  pub width : ℕ
  pub height : ℕ
  pub pitch : ℕ
  pub words : ℕ → ℕ

-- The static variables of vga.c. `font c y` is row y of the glyph of c in the table
-- font8x8_basic, which has 128 glyphs.
pub record Screen : Type 0 where
  pub font : ℕ → ℕ → ℕ
  pub fb_width : ℕ
  pub fb_height : ℕ
  pub fb : ℕ → ℕ
  pub pitch_px : ℕ
  pub vga_width : ℕ
  pub vga_height : ℕ
  pub cursor_row : ℕ
  pub cursor_column : ℕ
  pub line_len : List ℕ
  pub text_color : ℕ

abbrev pub glyph_w : ℕ
glyph_w = 8

abbrev pub glyph_h : ℕ
glyph_h = 8

abbrev pub max_rows : ℕ
max_rows = 256

abbrev pub u8 : ℕ → ℕ
u8 n = n % 2 ^ 8

abbrev pub u16 : ℕ → ℕ
u16 n = n % 2 ^ 16

abbrev pub vga_palette : List ℕ
vga_palette =
    0x000000 ∷ 0x0000AA ∷ 0x00AA00 ∷ 0x00AAAA ∷ 0xAA0000 ∷ 0xAA00AA ∷ 0xAA5500 ∷ 0xAAAAAA ∷ 0x555555
    ∷ 0x5555FF ∷ 0x55FF55 ∷ 0x55FFFF ∷ 0xFF5555 ∷ 0xFF55FF ∷ 0xFFFF55 ∷ 0xFFFFFF ∷ []

-- The index is `color & 0x0F`, in range.
pub fg_rgb : ℕ → ℕ
fg_rgb color = get_or vga_palette (color % 16) 0

pub bg_rgb : ℕ → ℕ
bg_rgb color = get_or vga_palette (color / 16 % 16) 0

-- `vga_init`, which leaves the other variables at their static values. `VGA_WIDTH` is an `int`: a
-- framebuffer of 2^34 pixels a row is not modelled.
pub vga_init : (ℕ → ℕ → ℕ) → Framebuffer → Screen
vga_init font g = record {
  font = font;
  fb_width = g.width;
  fb_height = g.height;
  fb = g.words;
  pitch_px = g.pitch / 4;
  vga_width = g.width / glyph_w;
  vga_height = (let h = g.height / glyph_h in if ltb max_rows h then max_rows else h);
  cursor_row = 0;
  cursor_column = 0;
  line_len = replicate max_rows 0;
  text_color = 0x0F;
}

pub vga_change_text_color : ℕ → Screen → Screen
vga_change_text_color col s = record s { text_color = col }

abbrev pub update : (ℕ → ℕ) → ℕ → ℕ → ℕ → ℕ
update f i v j = if i == j then v else f j

-- The words of the framebuffer: `height` rows of `pitch_px`.
abbrev pub fb_size : Screen → ℕ
fb_size s = s.fb_height * s.pitch_px

-- fb[i] = v
pub plot : ℕ → ℕ → Screen → Option Screen
plot i v s = check (ltb i (fb_size s)) (some (record s { fb = update s.fb i v }))

-- bits & (1 << x)
abbrev pub bit_set : ℕ → ℕ → Bool
bit_set bits x = bits / 2 ^ x % 2 == 1

pub draw_row : ℕ → ℕ → ℕ → ℕ → ℕ → ℕ → Screen → Option Screen
draw_row fg bg px0 py bits x s =
    plot (py * s.pitch_px + (px0 + x)) (if bit_set bits x then fg else bg) s

-- `font8x8_basic[(unsigned char)c]` faults outside the table.
pub draw_cell : ℕ → ℕ → ℕ → ℕ → Screen → Option Screen
unfolding plot draw_row
draw_cell col row c color s = check (ltb c 128) (
    for_range glyph_h 0
      (λ y.
        for_range glyph_w 0
          (draw_row (fg_rgb color) (bg_rgb color) (col * glyph_w) (row * glyph_h + y) (s.font c y)))
      s)

pub clear_cell : ℕ → ℕ → ℕ → Screen → Option Screen
clear_cell col row color = draw_cell col row b' ' color

-- A stub in the source, which does nothing.
pub vga_set_cursor : ℕ → ℕ → Screen → Screen
vga_set_cursor x y s = s

pub vga_move_cursor : ℕ → ℕ → Screen → Screen
unfolding vga_set_cursor
vga_move_cursor x y s = vga_set_cursor x y (record s { cursor_row = y; cursor_column = x })

-- line_len[r] = v
pub set_line_len : ℕ → ℕ → Screen → Option Screen
set_line_len r v s = do l ← store s.line_len r v; some (record s { line_len = l })

pub vga_clear_screen : ℕ → Screen → Option Screen
unfolding plot set_line_len
vga_clear_screen color s = do
  painted ←
      for_range s.fb_height 0
        (λ y. for_range s.fb_width 0 (λ x t. plot (y * t.pitch_px + x) (bg_rgb color) t)) s
  emptied ← for_range painted.vga_height 0 (λ i. set_line_len i 0) painted
  some (vga_move_cursor 0 0 emptied)

-- fb[(y - GLYPH_H) * pitch_px + x] = fb[y * pitch_px + x]
pub copy_up : ℕ → ℕ → Screen → Option Screen
unfolding plot
copy_up y x s =
    check (ltb (y * s.pitch_px + x) (fb_size s))
      (plot ((y - glyph_h) * s.pitch_px + x) (s.fb (y * s.pitch_px + x)) s)

-- line_len[r - 1] = line_len[r]
pub shift_len : ℕ → Screen → Option Screen
unfolding set_line_len
shift_len r s = do v ← get_elem? s.line_len r; set_line_len (r - 1) v s

-- On a screen with no row, `VGA_HEIGHT - 1` is -1, and the last write is outside `line_len`.
pub vga_up : Screen → Option Screen
unfolding copy_up shift_len set_line_len
vga_up s = check (ltb 0 s.vga_height) do
  moved ←
      for_range (s.vga_height * glyph_h - glyph_h) glyph_h
        (λ y. for_range (s.vga_width * glyph_w) 0 (copy_up y)) s
  cleared ← for_range moved.vga_width 0 (λ x. clear_cell x (s.vga_height - 1) 0x07) moved
  shifted ← for_range (s.vga_height - 1) 1 shift_len cleared
  set_line_len (s.vga_height - 1) 0 shifted

-- The end of three branches of `vga_putc`: the cursor goes to the start of the next row, and a
-- row past the last scrolls the screen.
pub next_row : Screen → Option Screen
next_row s =
    let row = u16 (s.cursor_row + 1) in
    if leb s.vga_height row
    then (do scrolled ← vga_up s; some (vga_move_cursor 0 (u16 (s.vga_height - 1)) scrolled))
    else some (vga_move_cursor 0 row s)

pub tab : Screen → Option Screen
tab s =
    let column = u16 (s.cursor_column + (2 - s.cursor_column % 2)) in
    if leb s.vga_width column then next_row s else some (vga_move_cursor column s.cursor_row s)

-- The clearing, the cut of `line_len` and the move of '\b', at the cell to delete.
pub erase_at : ℕ → ℕ → Screen → Option Screen
erase_at column row s = do
  cleared ← clear_cell column row 0 s
  len ← get_elem? cleared.line_len row
  cut ← if ltb column len then set_line_len row (u8 column) cleared else some cleared
  some (vga_move_cursor column row cut)

pub backspace : Screen → Option Screen
unfolding erase_at
backspace s =
    if s.cursor_column == 0
    then (if s.cursor_row == 0 then some s else do
      column ← get_elem? s.line_len (s.cursor_row - 1)
      erase_at column (s.cursor_row - 1) s)
    else erase_at (s.cursor_column - 1) s.cursor_row s

-- What `vga_putc` does with a printable character.
pub put_printable : ℕ → ℕ → Screen → Option Screen
unfolding next_row
put_printable c color s = do
  drawn ← draw_cell s.cursor_column s.cursor_row c color s
  len ← get_elem? drawn.line_len s.cursor_row
  marked ←
      if ltb len (s.cursor_column + 1)
      then set_line_len s.cursor_row (u8 (s.cursor_column + 1)) drawn
      else some drawn
  let column = u16 (s.cursor_column + 1)
  if leb s.vga_width column
      then next_row marked
      else some (vga_move_cursor column s.cursor_row marked)

-- `char` is signed: the bytes from 128 on are negative, and so at most 31.
pub vga_putc : ℕ → ℕ → Screen → Option Screen
unfolding next_row tab backspace put_printable
vga_putc c color s =
    if leb c 31 || leb 128 c
    then (if c == b'\n'
        then next_row s
        else if c == b'\t'
        then tab s
        else if c == 8
        then backspace s
        else some s)
    else put_printable c color s

-- A text with no NUL is read past its end.
pub vga_print : List ℕ → ℕ → Screen → Option Screen
vga_print [] color s = none
vga_print (c ∷ text) color s =
    if c == 0 then some s else (do t ← vga_putc c color s; vga_print text color t)

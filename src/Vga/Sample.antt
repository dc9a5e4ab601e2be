-- ===== src/Vga/Sample.antt =====
-- Screens at which the theorems on kernel/vga.c and its callers are applied.
use feudos.Prelude.{ℕ, ◌∷◌, replicate, arith, refl, inl}
use feudos.Vga.{Screen, Framebuffer, vga_init}
use feudos.Vga.Setup.{Usable, replicate-AllLe, vga_init-IsValid}
use feudos.Vga.Valid.{IsValid}

-- 256 by 32 pixels: 32 columns and 4 rows.
abbrev pub small : Framebuffer
small = record { width = 256; height = 32; pitch = 1024; words = λ _. 7 }

-- A glyph with one column of pixels set.
abbrev pub bar : ℕ → ℕ → ℕ
bar c y = 16

abbrev pub fresh : Screen
fresh = vga_init bar small

pub small-Usable : Usable small
small-Usable = omega arith

pub fresh-IsValid : IsValid fresh
fresh-IsValid = vga_init-IsValid bar small small-Usable

-- The cursor stands behind a full first row.
abbrev pub wrapped : Screen
wrapped = record {
  font = bar;
  fb_width = 256;
  fb_height = 32;
  fb = λ _. 7;
  pitch_px = 256;
  vga_width = 32;
  vga_height = 4;
  cursor_row = 1;
  cursor_column = 0;
  line_len = 32 ∷ replicate 255 0;
  text_color = 15;
}

pub wrapped-IsValid : IsValid wrapped
wrapped-IsValid = record {
  grid = omega arith;
  lens = refl;
  lens_le = (omega arith, replicate-AllLe 255 255 0 (omega arith));
  cursor = (omega arith, inl (omega arith));
}

-- 300 columns and 2 rows, with the first row filled up to column 254.
abbrev pub wide : Screen
wide = record {
  font = bar;
  fb_width = 2400;
  fb_height = 16;
  fb = λ _. 7;
  pitch_px = 2400;
  vga_width = 300;
  vga_height = 2;
  cursor_row = 0;
  cursor_column = 255;
  line_len = 255 ∷ replicate 255 0;
  text_color = 15;
}

pub wide-IsValid : IsValid wide
wide-IsValid = record {
  grid = omega arith;
  lens = refl;
  lens_le = (omega arith, replicate-AllLe 255 255 0 (omega arith));
  cursor = (omega arith, inl (omega arith));
}

-- The cursor stands in the last column of the first row.
abbrev pub last_column : Screen
last_column = record wrapped { cursor_row = 0; cursor_column = 31; line_len = 31 ∷ replicate 255 0 }

pub last_column-IsValid : IsValid last_column
last_column-IsValid = record {
  grid = omega arith;
  lens = refl;
  lens_le = (omega arith, replicate-AllLe 255 255 0 (omega arith));
  cursor = (omega arith, inl (omega arith));
}

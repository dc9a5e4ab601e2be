-- ===== src/Vga/Color.antt =====
-- include/util/vga_colors.h: the colours of the text screen.
use feudos.Prelude.{ℕ}

-- `vga_color_t`.
pub data VgaColor : Type 0 where
  vga_black : VgaColor
  vga_blue : VgaColor
  vga_green : VgaColor
  vga_cyan : VgaColor
  vga_red : VgaColor
  vga_magenta : VgaColor
  vga_brown : VgaColor
  vga_light_gray : VgaColor
  vga_dark_gray : VgaColor
  vga_light_blue : VgaColor
  vga_light_green : VgaColor
  vga_light_cyan : VgaColor
  vga_light_red : VgaColor
  vga_light_magenta : VgaColor
  vga_yellow : VgaColor
  vga_white : VgaColor

-- The values of the constants.
abbrev pub vga_color : VgaColor → ℕ
vga_color vga_black = 0x0
vga_color vga_blue = 0x1
vga_color vga_green = 0x2
vga_color vga_cyan = 0x3
vga_color vga_red = 0x4
vga_color vga_magenta = 0x5
vga_color vga_brown = 0x6
vga_color vga_light_gray = 0x7
vga_color vga_dark_gray = 0x8
vga_color vga_light_blue = 0x9
vga_color vga_light_green = 0xA
vga_color vga_light_cyan = 0xB
vga_color vga_light_red = 0xC
vga_color vga_light_magenta = 0xD
vga_color vga_yellow = 0xE
vga_color vga_white = 0xF

-- ===== src/Vga/Palette.antt =====
-- kernel/vga.c, `vga_palette`: the colours are those of the sixteen text attributes.
use feudos.Prelude.{
  ℕ, zero, suc, ◌+◌, ◌*◌, ◌/◌, ◌%◌, ◌<◌, ◌≡◌, ◌∙◌, refl, ap, List, [], ◌∷◌, ◌==◌, if◌then◌else◌,
  arith, get_or,
}
use feudos.Vga.{fg_rgb, bg_rgb, vga_palette}

-- The colour of an attribute, as 0xRRGGBB: its bits are blue, green, red and bright. A colour's bit gives
-- 0xAA to its component and the bright one 0x55 to each, but dark yellow has half its green: it is
-- brown.
abbrev pub component : ℕ → ℕ → ℕ
component bright bit = bit % 2 * 0xAA + bright * 0x55

unfoldable pub text_rgb : ℕ → ℕ
text_rgb n =
    if n == 6
    then 0xAA5500
    else component (n / 8) (n / 4) * 0x10000
      + component (n / 8) (n / 2) * 0x100
      + component (n / 8) n

tabulate : ℕ → ℕ → List ℕ
unfolding text_rgb
tabulate zero a = []
tabulate (suc n) a = text_rgb a ∷ tabulate n (suc a)

get_or-tabulate : (n a i : ℕ) → i < n → get_or (tabulate n a) i 0 ≡ text_rgb (a + i)
unfolding tabulate
get_or-tabulate zero a i h = absurd (omega arith)
get_or-tabulate (suc n) a zero h = ap text_rgb (omega arith)
get_or-tabulate (suc n) a (suc i) h =
    get_or-tabulate n (suc a) i (omega arith) ∙ ap text_rgb (omega arith)

palette : vga_palette ≡ tabulate 16 0
unfolding tabulate text_rgb
palette = refl

at_index : (i : ℕ) → i < 16 → get_or vga_palette i 0 ≡ text_rgb i
at_index i h = ap (λ t. get_or t i 0) palette ∙ get_or-tabulate 16 0 i h ∙ ap text_rgb (omega arith)

-- The low half of an attribute is the text, the high half the background.
pub fg_rgb-text_rgb : (color : ℕ) → fg_rgb color ≡ text_rgb (color % 16)
unfolding fg_rgb
fg_rgb-text_rgb color = at_index (color % 16) (omega arith)

pub bg_rgb-text_rgb : (color : ℕ) → bg_rgb color ≡ text_rgb (color / 16 % 16)
unfolding bg_rgb
bg_rgb-text_rgb color = at_index (color / 16 % 16) (omega arith)

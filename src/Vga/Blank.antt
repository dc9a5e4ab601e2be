-- ===== src/Vga/Blank.antt =====
-- kernel/vga.c: `vga_clear_screen` shows a blank terminal.
use feudos.Prelude.{ℕ, ◌+◌, ◌*◌, ◌≡◌, ap, refl, arith, Yields, Yields-mono, Yields-and}
use feudos.Vga.{Screen, bg_rgb, vga_clear_screen}
use feudos.Vga.Valid.{IsValid}
use feudos.Vga.Setup.{vga_clear_screen-Printed}
use feudos.Vga.Render.{Filled, Cleared, vga_clear_screen-Cleared}
use feudos.Vga.Renders.{Renders}
use feudos.Vga.Terminal.{blank}

-- A filled screen whose counts are 0 and whose cursor is at the origin.
Cleared-Renders : (v : ℕ) (s t : Screen) → IsValid s → Cleared v s t → Renders t (blank v)
Cleared-Renders v s t valid c =
    let height : t.vga_height ≡ s.vga_height = ap (λ (u : Screen). u.vga_height) c.same in
    let width : t.vga_width ≡ s.vga_width = ap (λ (u : Screen). u.vga_width) c.same in
    record {
      pixels = (
        refl,
        λ i j y x hi hj hy hx.
            c.filled (i * 8 + y) (j * 8 + x) (omega (arith, height, hi, valid.grid.tall))
              (omega (arith, width, hj, valid.grid.seen)),
      );
      counts = λ r hr. c.none_written r (omega (arith, height, hr));
      row = ap (λ (u : Screen). u.cursor_row) c.same;
      col = ap (λ (u : Screen). u.cursor_column) c.same;
    }

-- On a valid screen `vga_clear_screen` does not fault and keeps the screen valid. Every pixel of
-- the framebuffer has the background colour of the attribute, and the screen shows a terminal of
-- blank cells with the cursor at the origin.
pub vga_clear_screen-blank :
    (color : ℕ) (s : Screen)
    → IsValid s
    → Yields
        (λ t. IsValid t × Filled (bg_rgb color) s t × Renders t (blank (bg_rgb color)))
        (vga_clear_screen color s)
vga_clear_screen-blank color s v =
    Yields-mono (vga_clear_screen color s)
      (Yields-and (vga_clear_screen color s) (vga_clear_screen-Printed color s v)
        (vga_clear_screen-Cleared color s v))
      λ t ((p, _, _), c). (p.valid, c.filled, Cleared-Renders (bg_rgb color) s t v c)

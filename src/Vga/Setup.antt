-- ===== src/Vga/Setup.antt =====
-- kernel/vga.c: `vga_init` and `vga_clear_screen` establish a valid screen.
use feudos.Prelude.{
  ℕ, zero, suc, ◌*◌, ◌≤◌, ◌<◌, ◌≡◌, ap, refl, inl, arith, replicate, length-replicate, AllLe,
  Yields, Yields-bind, for_range_inv,
}
use feudos.Vga.{
  Screen, vga_move_cursor, Framebuffer, vga_init, vga_clear_screen, max_rows, set_line_len, bg_rgb,
}
use feudos.Vga.Bounds.{fill-OnlyFb}
use feudos.Vga.Valid.{
  IsValid, Redrawn, Redrawn-refl, Redrawn-OnlyFb, set_line_len-Redrawn, Printed, Printed-move,
}

-- A framebuffer for at least one cell, with rows of at least 228 words that hold its width, and
-- at most 65534 columns of cells.
pub record Usable (g : Framebuffer) : Type 0 where
  pub tall : 8 ≤ g.height
  pub some_width : 8 ≤ g.width
  pub narrow : g.width < 524280
  pub pitch_fits : 4 * g.width ≤ g.pitch
  pub pitch_roomy : 912 ≤ g.pitch

pub replicate-AllLe : (n m v : ℕ) → v ≤ m → AllLe m (replicate n v)
replicate-AllLe zero m v h = tt
replicate-AllLe (suc n) m v h = (h, replicate-AllLe n m v h)

-- `vga_init` makes a valid screen of a framebuffer of usable size.
pub vga_init-IsValid : (font : ℕ → ℕ → ℕ) (g : Framebuffer) → Usable g → IsValid (vga_init font g)
unfolding vga_init
vga_init-IsValid font g u = record {
  grid = record {
    rows_pos = ground (arith, u.tall);
    rows_le = ground arith;
    cols_pos = omega (arith, u.some_width);
    cols_lt = omega (arith, u.narrow);
    wide = omega (arith, u.pitch_fits);
    tall = ground arith;
    visible = omega (arith, u.pitch_fits);
    roomy = omega (arith, u.pitch_roomy);
    seen = omega arith;
  };
  lens = length-replicate {A = ℕ} max_rows 0;
  lens_le = replicate-AllLe max_rows 255 0 (omega arith);
  cursor = (ground (arith, u.tall), inl (omega (arith, u.some_width)));
}

-- `vga_clear_screen` does not fault on a valid screen, keeps it valid, and leaves the cursor at the
-- origin.
pub vga_clear_screen-Printed :
    (color : ℕ) (s : Screen)
    → IsValid s
    → Yields
        (λ t. Printed s t × (t.cursor_row ≡ 0) × (t.cursor_column ≡ 0))
        (vga_clear_screen color s)
unfolding vga_clear_screen vga_move_cursor
vga_clear_screen-Printed color s v =
    Yields-bind _ _ (fill-OnlyFb s s (bg_rgb color) refl v.grid.visible) λ a ea.
      Yields-bind _ _
        (for_range_inv (λ _. Redrawn s) (λ i. set_line_len i 0) a.vga_height 0 a.vga_height
          (omega arith)
          (λ k u _ hk r.
            set_line_len-Redrawn s u k 0 r
              (omega (arith, ap (λ (w : Screen). w.vga_height) ea, v.grid.rows_le)) (omega arith))
          a (Redrawn-OnlyFb s s a (Redrawn-refl s v) ea))
        λ b rb.
          (_, refl, (Printed-move s b 0 0 v rb (v.grid.rows_pos, inl v.grid.cols_pos), refl, refl))

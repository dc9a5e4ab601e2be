-- ===== src/Vga/Scroll.antt =====
-- kernel/vga.c, `vga_up`: the pixels after the rows have moved up.
use feudos.Prelude.{
  ℕ, suc, ◌+◌, ◌-◌, ◌*◌, ◌≤◌, ◌<◌, ◌≡◌, ◌∙◌, ap, refl, arith, Bool, true, false, ◌&&◌, ◌||◌, ltb,
  ◌==◌, if◌then◌else◌, Bool-cases, inl, inr, for_range, Yields, Yields-mono, for_range_inv, lt→ltb,
  Option,
}
use feudos.Vga.{Screen, fb_size, copy_up, glyph_w, glyph_h}
use feudos.Vga.Bounds.{addr_bound}
use feudos.Vga.Pixels.{pixel, Drawn, Drawn-same, plot-Drawn}
use feudos.Vga.Valid.{FitsGrid}
use feudos.Vga.Cells.{Shows}
use feudos.Vga.Terminal.{Cells}

-- The colour that a pixel gets: that of the pixel one row of cells below.
abbrev below : Screen → ℕ → ℕ → ℕ
below s y x = pixel s (y + 8) x

-- The pixels copied so far: the rows of pixels above n, and m pixels of row n.
abbrev copied : ℕ → ℕ → ℕ → ℕ → ℕ → Bool
copied width n m y x = (y == n && ltb x m) || (ltb y n && ltb x width)

copy_up-Drawn :
    (s t : Screen) (width n m : ℕ)
    → n + 8 < s.fb_height
    → width ≤ s.pitch_px
    → m < width
    → Drawn (copied width n m) (below s) s t
    → Yields (Drawn (copied width n (suc m)) (below s) s) (copy_up (n + 8) m t)
unfolding copy_up
copy_up-Drawn s t width n m hn hw hm (e, d) =
    let pitch : t.pitch_px ≡ s.pitch_px = ap (λ (u : Screen). u.pitch_px) e in
    let tall : t.fb_height ≡ s.fb_height = ap (λ (u : Screen). u.fb_height) e in
    let inside : ltb ((n + 8) * t.pitch_px + m) (fb_size t) ≡ true =
      lt→ltb _ _ (
        addr_bound (n + 8) m t.fb_height t.pitch_px (omega (arith, tall)) (omega (arith, pitch))) in
    let untouched : copied width n m (n + 8) m ≡ false = ground arith in
    let read : t.fb ((n + 8) * t.pitch_px + m) ≡ below s n m =
      d (n + 8) m (omega arith) ∙ rw untouched refl in
    let row : n + 8 - 8 ≡ n = omega arith in
    rw (inside, read, row)
      (Yields-mono _
        (plot-Drawn s t (copied width n m) (below s) n m (e, d) (omega arith) (omega arith))
        λ u q. Drawn-same _ _ (below s) s u (λ y x. ground arith) q)

-- The loop over the rows of pixels.
abbrev pub move_rows : Screen → Option Screen
move_rows s =
    for_range (s.vga_height * glyph_h - glyph_h) glyph_h
      (λ y. for_range (s.vga_width * glyph_w) 0 (copy_up y)) s

move_rows-Drawn :
    (s : Screen)
    → FitsGrid s
    → Yields (Drawn (copied (s.vga_width * 8) (s.vga_height * 8 - 8) 0) (below s) s) (move_rows s)
move_rows-Drawn s g =
    let width = s.vga_width * 8 in
    for_range_inv (λ y. Drawn (copied width (y - 8) 0) (below s) s) _ (s.vga_height * 8 - 8) 8
      (s.vga_height * 8) (omega (arith, g.rows_pos))
      (λ y t lo hy p.
        let ey : y ≡ y - 8 + 8 = omega arith in
        Yields-mono _
          (for_range_inv (λ m. Drawn (copied width (y - 8) m) (below s) s) _ width 0 width
            (omega arith)
            (λ m u _ hm q.
              rw (ap (λ k. copy_up k m u) ey)
                (copy_up-Drawn s u width (y - 8) m (omega (arith, g.tall)) g.wide hm q))
            t p)
          λ u q.
            Drawn-same (copied width (y - 8) width) (copied width (suc y - 8) 0) (below s) s u
              (λ b a. ground arith) q)
      s (refl, λ y x k. let before : copied width 0 0 y x ≡ false = ground arith in rw before refl)

-- The cells of each row but the last are those of the row below it.
pub move_rows-Shows :
    (s : Screen) (cells : Cells)
    → FitsGrid s
    → Shows s cells s
    → Yields
        (Shows s (λ r c. if r == s.vga_height - 1 then cells r c else cells (r + 1) c))
        (move_rows s)
move_rows-Shows s cells g (e, sh) =
    let width = s.vga_width * 8 in
    let height = s.vga_height * 8 - 8 in
    Yields-mono _ (move_rows-Drawn s g) λ u (eu, d). (
      eu,
      λ r c y x kr kc ky kx.
          d (r * 8 + y) (c * 8 + x) (omega (arith, g.wide))
          ∙ elim (Bool-cases (r == s.vga_height - 1)) [
            | inl last ↦
                let no : copied width height 0 (r * 8 + y) (c * 8 + x) ≡ false = ground arith in
                rw (no, last) (sh r c y x kr kc ky kx)
            | inr above ↦
                let yes : copied width height 0 (r * 8 + y) (c * 8 + x) ≡ true = ground arith in
                let to : r * 8 + y + 8 ≡ (r + 1) * 8 + y = omega arith in
                rw (yes, above)
                  (ap (λ b. pixel s b (c * 8 + x)) to ∙ sh (r + 1) c y x (ground arith) kc ky kx)
          ],
    )

-- ===== src/Vga/Valid.antt =====
-- kernel/vga.c: the invariant of the screen. Under it no character makes the code read or write
-- outside the framebuffer or `line_len`.
use native.Mathlib.Nat.{mul-le-mul_right}
use feudos.Prelude.{
  ℕ, ◌+◌, ◌-◌, ◌*◌, ◌≤◌, ◌<◌, ◌≡◌, ◌∙◌, ap, refl, ◌⊎◌, inl, inr, arith, ltb, length, set,
  length-set, Yields, Yields-bind, Yields-check, for_range_inv, lt→ltb, AllLe, AllLe-set,
  get_elem?-AllLe,
}
use feudos.Vga.{
  Screen, glyph_w, glyph_h, max_rows, set_line_len, shift_len, vga_up, vga_move_cursor,
  vga_change_text_color,
}
use feudos.Vga.Bounds.{OnlyFb, InFb, scroll-OnlyFb, clear_row-OnlyFb, addr_bound}

-- The grid of cells, which only `vga_init` sets, lies in the framebuffer. The columns fit the
-- 16-bit cursor, and a row of pixels is wide enough for a cell at column 255 of a row that is not
-- the last to lie in the framebuffer.
pub record FitsGrid (s : Screen) : Type 0 where
  pub rows_pos : 0 < s.vga_height
  pub rows_le : s.vga_height ≤ max_rows
  pub cols_pos : 0 < s.vga_width
  pub cols_lt : s.vga_width < 65535
  pub wide : s.vga_width * glyph_w ≤ s.pitch_px
  pub tall : s.vga_height * glyph_h ≤ s.fb_height
  pub visible : s.fb_width ≤ s.pitch_px
  pub roomy : 228 ≤ s.pitch_px
  pub seen : s.vga_width * glyph_w ≤ s.fb_width

-- The cells at which the cursor may stand: those of the grid, and those up to column 255 of a row
-- that is not the last, where '\b' may leave it behind the end of a full row.
abbrev pub InReach : ℕ → ℕ → Screen → Type 0
InReach col row s =
    (row < s.vga_height) × ((col < s.vga_width) ⊎ ((col ≤ 255) × (row + 1 < s.vga_height)))

pub record IsValid (s : Screen) : Type 0 where
  pub grid : FitsGrid s
  pub lens : length s.line_len ≡ max_rows
  pub lens_le : AllLe 255 s.line_len
  pub cursor : InReach s.cursor_column s.cursor_row s

addr_far : (y x h p : ℕ) → y + 9 ≤ h → x ≤ 2047 → 228 ≤ p → y * p + x < h * p
addr_far y x h p a b c = omega (arith, mul-le-mul_right p a)

-- A cell in reach lies in the framebuffer.
pub InReach-InFb : (s : Screen) (col row : ℕ) → FitsGrid s → InReach col row s → InFb col row s
InReach-InFb s col row g (r, inl c) = addr_bound _ _ _ _ (omega arith) (omega arith)
InReach-InFb s col row g (r, inr (c, l)) = addr_far _ _ _ _ (omega arith) (omega arith) g.roomy

-- `t` is `s` but for the framebuffer and `line_len`, and its `line_len` is well formed.
pub record Redrawn (s t : Screen) : Type 0 where
  pub same : t ≡ record s { fb = t.fb; line_len = t.line_len }
  pub lens : length t.line_len ≡ max_rows
  pub lens_le : AllLe 255 t.line_len

pub Redrawn-refl : (s : Screen) → IsValid s → Redrawn s s
Redrawn-refl s v = record { same = refl; lens = v.lens; lens_le = v.lens_le }

-- What a draw leaves is redrawn.
pub Redrawn-OnlyFb : (s t u : Screen) → Redrawn s t → OnlyFb t u → Redrawn s u
Redrawn-OnlyFb s t u r e = record {
  same = ground (arith, r.same);
  lens = ap (λ (w : Screen). length w.line_len) e ∙ r.lens;
  lens_le = rw e r.lens_le;
}

-- The grid is not touched by a redraw.
pub FitsGrid-Redrawn : (s t : Screen) → Redrawn s t → FitsGrid s → FitsGrid t
FitsGrid-Redrawn s t r g = rw r.same (record {
  rows_pos = g.rows_pos;
  rows_le = g.rows_le;
  cols_pos = g.cols_pos;
  cols_lt = g.cols_lt;
  wide = g.wide;
  tall = g.tall;
  visible = g.visible;
  roomy = g.roomy;
  seen = g.seen;
})

pub InReach-Redrawn :
    (s t : Screen) (col row : ℕ) → Redrawn s t → InReach col row s → InReach col row t
InReach-Redrawn s t col row r h = rw r.same h

-- `t` is a valid screen that differs from `s` in the framebuffer, `line_len` and the cursor only.
pub record Printed (s t : Screen) : Type 0 where
  pub valid : IsValid t
  pub same : t ≡ record s {
    fb = t.fb;
    line_len = t.line_len;
    cursor_row = t.cursor_row;
    cursor_column = t.cursor_column;
  }

-- A redraw followed by a move of the cursor within reach.
pub Printed-move :
    (s t : Screen) (col row : ℕ)
    → IsValid s
    → Redrawn s t
    → InReach col row s
    → Printed s (vga_move_cursor col row t)
unfolding vga_move_cursor
Printed-move s t col row v r h =
    let g : FitsGrid t = FitsGrid-Redrawn s t r v.grid in
    record {
      valid = record {
        grid = record {
          rows_pos = g.rows_pos;
          rows_le = g.rows_le;
          cols_pos = g.cols_pos;
          cols_lt = g.cols_lt;
          wide = g.wide;
          tall = g.tall;
          visible = g.visible;
          roomy = g.roomy;
          seen = g.seen;
        };
        lens = r.lens;
        lens_le = r.lens_le;
        cursor = InReach-Redrawn s t col row r h;
      };
      same = ground (arith, r.same);
    }

pub set_line_len-Redrawn :
    (s t : Screen) (row v : ℕ)
    → Redrawn s t
    → row < max_rows
    → v ≤ 255
    → Yields (Redrawn s) (set_line_len row v t)
unfolding set_line_len
set_line_len-Redrawn s t row v r h k = (
  record t { line_len = set t.line_len row v },
  ground (arith, r.lens),
  record {
    same = ground (arith, r.same);
    lens = length-set t.line_len row v ∙ r.lens;
    lens_le = AllLe-set 255 t.line_len row v r.lens_le k;
  },
)

shift_len-Redrawn :
    (s t : Screen) (row : ℕ) → Redrawn s t → row < max_rows → Yields (Redrawn s) (shift_len row t)
unfolding shift_len
shift_len-Redrawn s t row r h =
    let (v, e, le) = get_elem?-AllLe 255 t.line_len row r.lens_le (omega (arith, r.lens)) in
    rw e (set_line_len-Redrawn s t (row - 1) v r (omega arith) le)

-- `vga_up` stays inside its arrays, and moves no cursor.
pub vga_up-Redrawn : (s : Screen) → IsValid s → Yields (Redrawn s) (vga_up s)
unfolding vga_up
vga_up-Redrawn s v = Yields-check (ltb 0 s.vga_height) _ (lt→ltb _ _ v.grid.rows_pos) (
    Yields-bind _ _ (scroll-OnlyFb s s refl v.grid.wide v.grid.tall v.grid.rows_pos) λ a ea.
      Yields-bind _ _
        (clear_row-OnlyFb s a a.vga_width (s.vga_height - 1) 7 ea
          (omega (arith, ap (λ (w : Screen). w.vga_width) ea, v.grid.wide)) (omega arith))
        λ b eb.
          Yields-bind _ _
            (for_range_inv (λ _. Redrawn s) shift_len (s.vga_height - 1) 1 s.vga_height
              (omega arith) (λ k u _ hk r. shift_len-Redrawn s u k r (omega arith)) b
              (Redrawn-OnlyFb s s b (Redrawn-refl s v) eb))
            λ c rc. set_line_len-Redrawn s c (s.vga_height - 1) 0 rc (omega arith) (omega arith))

-- A redraw keeps the invariant.
pub IsValid-Redrawn : (s t : Screen) → IsValid s → Redrawn s t → IsValid t
IsValid-Redrawn s t v r = record {
  grid = FitsGrid-Redrawn s t r v.grid;
  lens = r.lens;
  lens_le = r.lens_le;
  cursor = rw r.same v.cursor;
}

-- Printing after a redraw, and after printing.
pub Printed-Redrawn : (s t u : Screen) → Redrawn s t → Printed t u → Printed s u
Printed-Redrawn s t u r p = record { valid = p.valid; same = ground (arith, r.same, p.same) }

pub Printed-trans : (s t u : Screen) → Printed s t → Printed t u → Printed s u
Printed-trans s t u p q = record { valid = q.valid; same = ground (arith, p.same, q.same) }

-- The colour of the text does not matter.
pub recolor-IsValid : (k : ℕ) (s : Screen) → IsValid s → IsValid (vga_change_text_color k s)
unfolding vga_change_text_color
recolor-IsValid k s v = record {
  grid = record {
    rows_pos = v.grid.rows_pos;
    rows_le = v.grid.rows_le;
    cols_pos = v.grid.cols_pos;
    cols_lt = v.grid.cols_lt;
    wide = v.grid.wide;
    tall = v.grid.tall;
    visible = v.grid.visible;
    roomy = v.grid.roomy;
    seen = v.grid.seen;
  };
  lens = v.lens;
  lens_le = v.lens_le;
  cursor = v.cursor;
}

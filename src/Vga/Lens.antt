-- ===== src/Vga/Lens.antt =====
-- kernel/vga.c: the counts of `line_len`, when one is set and when the rows move up.
use feudos.Prelude.{
  ℕ, suc, ◌+◌, ◌-◌, ◌≤◌, ◌<◌, ◌≡◌, ◌∙◌, ap, refl, arith, true, false, ltb, ◌==◌, if◌then◌else◌,
  Bool-cases, inl, inr, length, get_elem?, set, length-set, get_elem?-set_self, get_elem?-set_ne,
  some, ◌>>=◌, for_range, Yields, Yields-bind, Yields-mono, for_range_inv, lt→ltb,
}
use feudos.Vga.{Screen, max_rows, set_line_len, shift_len}
use feudos.Vga.Terminal.{set_len, up_lens}

-- `t` is `s` but for `line_len`, which has its size.
abbrev pub OnlyLens : Screen → Screen → Type 0
OnlyLens s t = (t ≡ record s { line_len = t.line_len }) × (length t.line_len ≡ max_rows)

-- The counts of the rows of the grid of `s`.
abbrev pub Counts : Screen → (ℕ → ℕ) → Screen → Type 0
Counts s lens t = (r : ℕ) → r < s.vga_height → get_elem? t.line_len r ≡ some (lens r)

pub set_line_len-Counts :
    (s t : Screen) (lens : ℕ → ℕ) (row v : ℕ)
    → OnlyLens s t
    → row < max_rows
    → Counts s lens t
    → Yields (λ u. OnlyLens s u × Counts s (set_len row v lens) u) (set_line_len row v t)
unfolding set_line_len
set_line_len-Counts s t lens row v (e, size) hr h =
    let inside : row < length t.line_len = omega (arith, size) in
    rw (lt→ltb _ _ inside) (
      record t { line_len = set t.line_len row v },
      refl,
      (
        (ground (arith, e), length-set t.line_len row v ∙ size),
        λ r kr. elim (Bool-cases (r == row)) [
          | inl same ↦
              let er : r ≡ row = ground arith in
              rw (same, ap (get_elem? (set t.line_len row v)) er)
                (get_elem?-set_self t.line_len row v inside)
          | inr other ↦ rw other (get_elem?-set_ne t.line_len v (ground arith) ∙ h r kr)
        ],
      ),
    )

-- The counts when the rows below k have moved.
abbrev moved : ℕ → (ℕ → ℕ) → ℕ → ℕ
moved k lens r = if ltb (r + 1) k then lens (r + 1) else lens r

moved-suc :
    (lens : ℕ → ℕ) (k r : ℕ)
    → 1 ≤ k
    → set_len (k - 1) (lens k) (moved k lens) r ≡ moved (suc k) lens r
moved-suc lens k r lo = elim (Bool-cases (r == k - 1)) [
  | inl here ↦
      let next : ltb (r + 1) (suc k) ≡ true = ground arith in
      rw (here, next) (ap lens (ground arith))
  | inr other ↦
      let same : ltb (r + 1) k ≡ ltb (r + 1) (suc k) = ground arith in rw (other, same) refl
]

shift_len-Counts :
    (s t : Screen) (lens : ℕ → ℕ) (k : ℕ)
    → 1 ≤ k
    → k < s.vga_height
    → s.vga_height ≤ max_rows
    → OnlyLens s t × Counts s (moved k lens) t
    → Yields (λ u. OnlyLens s u × Counts s (moved (suc k) lens) u) (shift_len k t)
unfolding shift_len
shift_len-Counts s t lens k lo hi hm (e, h) =
    let stays : ltb (k + 1) k ≡ false = ground arith in
    let read : get_elem? t.line_len k ≡ some (lens k) = h k hi ∙ rw stays refl in
    rw read (
      Yields-mono _ (set_line_len-Counts s t (moved k lens) (k - 1) (lens k) e (omega arith) h)
        λ u (eu, hu). (eu, λ r kr. hu r kr ∙ ap some (moved-suc lens k r lo)))

-- The end of `vga_up`.
pub shift-Counts :
    (s t : Screen) (lens : ℕ → ℕ)
    → 0 < s.vga_height
    → s.vga_height ≤ max_rows
    → OnlyLens s t
    → Counts s lens t
    → Yields
        (λ u. OnlyLens s u × Counts s (up_lens s.vga_height lens) u)
        (do
          shifted ← for_range (s.vga_height - 1) 1 shift_len t
          set_line_len (s.vga_height - 1) 0 shifted)
shift-Counts s t lens h0 hm e h =
    Yields-bind _ _
      (for_range_inv (λ k u. OnlyLens s u × Counts s (moved k lens) u) shift_len (s.vga_height - 1)
        1 s.vga_height (omega arith) (λ k u lo hi p. shift_len-Counts s u lens k lo hi hm p) t
        (e, λ r kr. h r kr ∙ ap some (ground arith)))
      λ u (eu, hu).
        Yields-mono _
          (set_line_len-Counts s u (moved s.vga_height lens) (s.vga_height - 1) 0 eu (omega arith)
            hu)
          λ w (ew, hw). (ew, λ r kr. hw r kr ∙ ap some (ground arith))

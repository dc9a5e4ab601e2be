-- ===== src/Vga/Pixels.antt =====
-- kernel/vga.c: the pixels that the drawing loops set, and that they set no others.
use feudos.Prelude.{
  ℕ, suc, ◌+◌, ◌*◌, ◌≤◌, ◌<◌, ◌≡◌, ◌≢◌, ap, refl, arith, Bool, true, false, Bool-cases, inl, inr,
  ◌&&◌, ◌||◌, ltb, leb, ◌==◌, if◌then◌else◌, for_range, Yields, Yields-mono, for_range_inv, lt→ltb,
  ltb→lt, ne→==false,
}
use feudos.Vga.{Screen, fb_size, plot, update}
use feudos.Vga.Bounds.{OnlyFb, addr_bound}

-- The pixel in column X of row Y.
abbrev pub pixel : Screen → ℕ → ℕ → ℕ
pixel s y x = s.fb (y * s.pitch_px + x)

-- From a on, below b.
abbrev pub within : ℕ → ℕ → ℕ → Bool
within a b x = leb a x && ltb x b

addr_inj : (p y x y' x' : ℕ) → x < p → x' < p → y * p + x ≡ y' * p + x' → (y ≡ y') × (x ≡ x')
addr_inj p y x y' x' h k e = elim (Bool-cases (ltb y y')) [
  | inl l ↦ absurd (omega (arith, e, addr_bound y x y' p (ltb→lt y y' l) h))
  | inr g ↦ elim (Bool-cases (ltb y' y)) [
    | inl l ↦ absurd (omega (arith, e, addr_bound y' x' y p (ltb→lt y' y l) k))
    | inr l ↦ let same : y ≡ y' = ground arith in (same, omega (arith, e, ap (λ r. r * p) same))
  ]
]

-- `t` is `s` but for the pixels of a test, which have these colours.
abbrev pub Drawn : (ℕ → ℕ → Bool) → (ℕ → ℕ → ℕ) → Screen → Screen → Type 0
Drawn test f s t =
    OnlyFb s t
    × ((y x : ℕ) → x < s.pitch_px → pixel t y x ≡ (if test y x then f y x else pixel s y x))

pub plot-Drawn :
    (s t : Screen) (test : ℕ → ℕ → Bool) (f : ℕ → ℕ → ℕ) (y x : ℕ)
    → Drawn test f s t
    → y < s.fb_height
    → x < s.pitch_px
    → Yields
        (Drawn (λ a b. (a == y && b == x) || test a b) f s)
        (plot (y * t.pitch_px + x) (f y x) t)
unfolding plot
plot-Drawn s t test f y x (e, d) hy hx =
    let p = t.pitch_px in
    let i = y * p + x in
    let width : p ≡ s.pitch_px = ap (λ (u : Screen). u.pitch_px) e in
    let hx' : x < p = rw width hx in
    let inside : ltb i (fb_size t) ≡ true =
      lt→ltb _ _ (rw (ap (λ (u : Screen). u.fb_height) e) (addr_bound y x s.fb_height p hy hx')) in
    let old : (y' x' : ℕ)
        → x' < s.pitch_px
        → t.fb (y' * p + x') ≡ (if test y' x' then f y' x' else pixel s y' x') =
      d in
    (
      record t { fb = update t.fb i (f y x) },
      rw inside refl,
      (
        ground arith,
        λ y' x' h. elim (Bool-cases (y' == y && x' == x)) [
          | inl same ↦
              let ey : y' ≡ y = ground arith in
              let ex : x' ≡ x = ground arith in
              let here : i == y * p + x ≡ true = ground arith in rw (same, ey, ex, here) refl
          | inr other ↦
              let apart : i ≢ y' * p + x' =
                λ q. let (ey, ex) = addr_inj p y x y' x' hx' (rw width h) q in ground arith in
              rw (other, ne→==false _ _ apart) (old y' x' h)
        ],
      ),
    )

-- A test that holds of the same pixels.
pub Drawn-same :
    (test test' : ℕ → ℕ → Bool) (f : ℕ → ℕ → ℕ) (s t : Screen)
    → ((y x : ℕ) → test y x ≡ test' y x)
    → Drawn test f s t
    → Drawn test' f s t
Drawn-same test test' f s t h (e, d) = (e, λ y x k. rw (← h y x) (d y x k))

abbrev pub rectangle : ℕ → ℕ → ℕ → ℕ → ℕ → ℕ → Bool
rectangle top left height width y x = within top (top + height) y && within left (left + width) x

-- One more pixel of the row `at`, no pixel of it, and all of them.
row_grows :
    (at left m y x : ℕ) (b : Bool)
    → (y == at && x == left + m || (y == at && within left (left + m) x || b))
      ≡ (y == at && within left (left + suc m) x || b)
row_grows at left m y x b = ground arith

row_empty : (at left y x : ℕ) (b : Bool) → b ≡ (y == at && within left (left + 0) x || b)
row_empty at left y x b = ground arith

row_full :
    (top left n width y x : ℕ)
    → (y == top + n && within left (left + width) x || rectangle top left n width y x)
      ≡ rectangle top left (suc n) width y x
row_full top left n width y x = ground arith

rectangle_empty : (top left width y x : ℕ) → rectangle top left 0 width y x ≡ false
rectangle_empty top left width y x = ground arith

-- The loop over a rectangle draws its pixels, and no others.
pub rectangle-Drawn :
    (s : Screen) (f : ℕ → ℕ → ℕ) (top left height width : ℕ)
    → left + width ≤ s.pitch_px
    → top + height ≤ s.fb_height
    → Yields (Drawn (rectangle top left height width) f s) (
        for_range height 0
          (λ y.
            for_range width 0
              (λ x t. plot ((top + y) * t.pitch_px + (left + x)) (f (top + y) (left + x)) t))
          s)
rectangle-Drawn s f top left height width hw hh =
    for_range_inv (λ n. Drawn (rectangle top left n width) f s) _ height 0 height (omega arith)
      (λ n t _ hn d.
        Yields-mono _
          (for_range_inv
            (λ m.
              Drawn
                (λ y x.
                  (y == top + n && within left (left + m) x) || rectangle top left n width y x)
                f s)
            _ width 0 width (omega arith)
            (λ m u _ hm c.
              Yields-mono _ (plot-Drawn s u _ f (top + n) (left + m) c (omega arith) (omega arith))
                λ r q.
                  Drawn-same _ _ f s r
                    (λ y x. row_grows (top + n) left m y x (rectangle top left n width y x)) q)
            t
            (Drawn-same _ _ f s t
              (λ y x. row_empty (top + n) left y x (rectangle top left n width y x)) d))
          λ r q. Drawn-same _ _ f s r (λ y x. row_full top left n width y x) q)
      s (refl, λ y x k. rw (rectangle_empty top left width y x) refl)

-- ===== src/Printf/Digits.antt =====
-- kernel/vga.c, `kprint_uint`: the digits that it prints.
use native.Mathlib.Nat.{pow-suc, pow-zero, div-lt_iff_lt-mul, div-add-mod'}
use native.Mathlib.Numerals.{add-one}
use feudos.Prelude.{
  ℕ, zero, suc, ◌+◌, ◌*◌, ◌/◌, ◌%◌, ◌^◌, ◌≤◌, ◌<◌, ◌≡◌, ◌∙◌, refl, sym, ap, List, [], ◌∷◌, ◌++◌,
  map, arith, lt→ltb, ◌==◌, if◌then◌else◌, length, set, get_or, length-set, length-append, Yields,
  Yields-mono, get_or-set_ne, get_elem?-eq-get_or, get_or-set_self, ap₂, Bool-cases, ==_iff, inl,
  inr, false, bind_cong,
}
use feudos.Str.{dtoa}
use feudos.Vga.{Screen, vga_putc}
use feudos.Vga.Text.{put_text}
use feudos.Printf.{digit_loop, put_back}

-- The number that digits stand for, the most significant first, behind a number `acc`.
unfoldable pub of_digits : ℕ → ℕ → List ℕ → ℕ
of_digits base acc [] = acc
of_digits base acc (d ∷ ds) = of_digits base (acc * base + d) ds

-- At most `m` digits of a number, with no leading zero; none for 0.
unfoldable pub digits : ℕ → ℕ → ℕ → List ℕ
digits zero base n = []
digits (suc m) base n =
    let higher = digits m base (n / base) in if n == 0 then [] else higher ++ (n % base ∷ [])

of_digits-snoc :
    (base acc : ℕ) (ds : List ℕ) (d : ℕ)
    → of_digits base acc (ds ++ d ∷ []) ≡ of_digits base acc ds * base + d
unfolding of_digits
of_digits-snoc base acc [] d = refl
of_digits-snoc base acc (e ∷ ds) d = of_digits-snoc base (acc * base + e) ds d

quotient_lt : (m base n : ℕ) → 0 < base → n < base ^ suc m → n / base < base ^ m
quotient_lt m base n hb h = (div-lt_iff_lt-mul hb).1 (rw pow-suc at h)

-- Below base ^ m, the m digits stand for the number.
pub of_digits-digits :
    (m base n : ℕ) → 0 < base → n < base ^ m → of_digits base 0 (digits m base n) ≡ n
unfolding digits of_digits
of_digits-digits zero base n hb h = omega (arith, pow-zero base)
of_digits-digits (suc m) base n hb h = ground (
  arith,
  of_digits-snoc base 0 (digits m base (n / base)) (n % base),
  of_digits-digits m base (n / base) hb (quotient_lt m base n hb h),
  div-add-mod' n base,
)

pub length-digits-le : (m base n : ℕ) → length (digits m base n) ≤ m
unfolding digits
length-digits-le zero base n = omega arith
length-digits-le (suc m) base n = ground (
  arith,
  length-digits-le m base (n / base),
  length-append (digits m base (n / base)) (n % base ∷ []),
)

-- What `put_back` finds: the first j bytes, the last of them first.
abbrev pub rev_take : ℕ → List ℕ → List ℕ
rev_take zero buf = []
rev_take (suc j) buf = get_or buf j 0 ∷ rev_take j buf

rev_take-set : (j i v : ℕ) (buf : List ℕ) → j ≤ i → rev_take j (set buf i v) ≡ rev_take j buf
rev_take-set zero i v buf h = refl
rev_take-set (suc j) i v buf h =
    ap₂ ◌∷◌ (get_or-set_ne buf v 0 (omega arith)) (rev_take-set j i v buf (omega arith))

-- The loop leaves the digits behind the `i` bytes that it finds in the buffer.
pub record Written (base m n i : ℕ) (buf : List ℕ) (out : ℕ × List ℕ) : Type 0 where
  pub count : out.0 ≡ i + length (digits m base n)
  pub size : length out.1 ≡ length buf
  pub bytes : rev_take out.0 out.1 ≡ map dtoa (digits m base n) ++ rev_take i buf

digits-zero : (m base : ℕ) → digits m base 0 ≡ []
unfolding digits
digits-zero zero base = refl
digits-zero (suc m) base = refl

digit_loop-done :
    (m fuel base n i : ℕ) (buf : List ℕ)
    → n ≡ 0
    → Yields (Written base m n i buf) (digit_loop (suc fuel) base n i buf)
unfolding digit_loop
digit_loop-done m fuel base n i buf e = rw e (
  (i, buf),
  refl,
  record { count = ground (arith, digits-zero m base); size = refl; bytes = rw digits-zero },
)

map-snoc :
    (ds : List ℕ) (d : ℕ) (r : List ℕ) → map dtoa (ds ++ d ∷ []) ++ r ≡ map dtoa ds ++ dtoa d ∷ r
map-snoc [] d r = refl
map-snoc (e ∷ ds) d r = ap (λ t. dtoa e ∷ t) (map-snoc ds d r)

rev_take-store :
    (i v : ℕ) (buf : List ℕ) → i < length buf → rev_take (i + 1) (set buf i v) ≡ v ∷ rev_take i buf
rev_take-store i v buf h =
    rw add-one (ap₂ ◌∷◌ (get_or-set_self buf i v 0 h) (rev_take-set i i v buf (omega arith)))

digits-suc :
    (m base n : ℕ)
    → (n == 0) ≡ false
    → digits (suc m) base n ≡ digits m base (n / base) ++ n % base ∷ []
unfolding digits
digits-suc m base n e = rw e

-- One round: the lowest digit goes to the buffer, the loop writes the others behind it.
Written-step :
    (m base n i : ℕ) (buf : List ℕ) (out : ℕ × List ℕ)
    → (n == 0) ≡ false
    → i < length buf
    → Written base m (n / base) (i + 1) (set buf i (dtoa (n % base))) out
    → Written base (suc m) n i buf out
Written-step m base n i buf out e h w =
    let higher = digits m base (n / base) in
    record {
      count =
          rw (digits-suc m base n e) (omega (arith, w.count, length-append higher (n % base ∷ [])));
      size = w.size ∙ length-set buf i (dtoa (n % base));
      bytes = rw (digits-suc m base n e) (
          w.bytes
          ∙ ap (λ r. map dtoa higher ++ r) (rev_take-store i (dtoa (n % base)) buf h)
          ∙ sym (map-snoc higher (n % base) (rev_take i buf)));
    }

pub digit_loop-Written :
    (m fuel base n i : ℕ) (buf : List ℕ)
    → 0 < base
    → n < base ^ m
    → m < fuel
    → i + m ≤ length buf
    → Yields (Written base m n i buf) (digit_loop fuel base n i buf)
unfolding digit_loop
digit_loop-Written m zero base n i buf hb hn hf hi = absurd (omega arith)
digit_loop-Written zero (suc fuel) base n i buf hb hn hf hi =
    digit_loop-done zero fuel base n i buf (omega (arith, pow-zero base))
digit_loop-Written (suc m) (suc fuel) base n i buf hb hn hf hi = elim (Bool-cases (n == 0)) [
  | inl e ↦ digit_loop-done (suc m) fuel base n i buf ((==_iff n 0).0 e)
  | inr e ↦
      rw (e, lt→ltb 0 base hb, lt→ltb i (length buf) (omega arith))
        (Yields-mono _
          (digit_loop-Written m fuel base (n / base) (i + 1) (set buf i (dtoa (n % base))) hb
            (quotient_lt m base n hb hn) (omega arith)
            (omega (arith, length-set buf i (dtoa (n % base)))))
          λ out w. Written-step m base n i buf out e (omega arith) w)
]

-- The second loop puts the bytes that are written, the last first.
pub put_back-put_text :
    (j : ℕ) (buf : List ℕ) (color : ℕ) (s : Screen)
    → j ≤ length buf
    → put_back j buf color s ≡ put_text color (rev_take j buf) s
unfolding put_back put_text
put_back-put_text zero buf color s h = refl
put_back-put_text (suc j) buf color s h = rw (get_elem?-eq-get_or buf j 0 (omega arith)) (
    bind_cong (vga_putc (get_or buf j 0) color s) _ _
      λ t. put_back-put_text j buf color t (omega arith))

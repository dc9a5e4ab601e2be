-- ===== src/Printf/Numeral.antt =====
-- kernel/vga.c, `kprint_uint` and `kprint_int`: the texts that they print.
use native.Mathlib.Nat.{mod-lt}
use feudos.Prelude.{
  ℕ, zero, suc, ◌+◌, ◌-◌, ◌*◌, ◌/◌, ◌%◌, ◌^◌, ◌≤◌, ◌<◌, ◌≡◌, ◌∙◌, refl, sym, ap, List, [], ◌∷◌,
  ◌++◌, map, arith, leb, ◌&&◌, ◌==◌, if◌then◌else◌, replicate, bind_cong, AllLe, false, Bool-cases,
  inl, inr, append-nil,
}
use feudos.Prelude.Int.{ℤ, pos, negsuc}
use feudos.Str.{dtoa}
use feudos.Vga.{Screen, vga_putc}
use feudos.Vga.Text.{put_text, put_text-one}
use feudos.Printf.{buf_size, kprint_uint, kprint_int}
use feudos.Printf.Digits.{
  of_digits, digits, of_digits-digits, digit_loop-Written, put_back-put_text, length-digits-le,
}

-- The text of a number below base ^ 20.
unfoldable pub numeral : ℕ → ℕ → List ℕ
numeral base n = if n == 0 then b'0' ∷ [] else map dtoa (digits buf_size base n)

-- The reading of a text of digits, of either kind. Another byte makes it greater than all numbers
-- of 20 digits.
unfoldable pub undigit : ℕ → ℕ
undigit c =
    if leb b'0' c && leb c b'9'
    then c - b'0'
    else if leb b'A' c && leb c b'F'
    then c - b'A' + 10
    else 2 ^ 80

unfoldable pub of_text : ℕ → ℕ → List ℕ → ℕ
of_text base acc [] = acc
of_text base acc (c ∷ cs) = of_text base (acc * base + undigit c) cs

undigit-dtoa : (d : ℕ) → d ≤ 15 → undigit (dtoa d) ≡ d
unfolding undigit dtoa
undigit-dtoa d h = ground arith

of_text-map-dtoa :
    (base acc : ℕ) (ds : List ℕ)
    → AllLe 15 ds
    → of_text base acc (map dtoa ds) ≡ of_digits base acc ds
unfolding of_text of_digits
of_text-map-dtoa base acc [] h = refl
of_text-map-dtoa base acc (d ∷ ds) h =
    ap (λ x. of_text base (acc * base + x) (map dtoa ds)) (undigit-dtoa d h.0)
    ∙ of_text-map-dtoa base (acc * base + d) ds h.1

AllLe-append : (n : ℕ) (xs ys : List ℕ) → AllLe n xs → AllLe n ys → AllLe n (xs ++ ys)
AllLe-append n [] ys h k = k
AllLe-append n (x ∷ xs) ys h k = (h.0, AllLe-append n xs ys h.1 k)

digits-AllLe : (m base n : ℕ) → 0 < base → base ≤ 16 → AllLe 15 (digits m base n)
unfolding digits
digits-AllLe zero base n hb hs = tt
digits-AllLe (suc m) base n hb hs = elim (Bool-cases (n == 0)) [
  | inl e ↦ rw e tt
  | inr e ↦ rw e (
      AllLe-append 15 (digits m base (n / base)) (n % base ∷ [])
        (digits-AllLe m base (n / base) hb hs) (omega (arith, mod-lt n hb), tt))
]

-- The digits of a numeral.
numeral_digits : ℕ → ℕ → List ℕ
numeral_digits base n = if n == 0 then 0 ∷ [] else digits buf_size base n

numeral_lem : (base n : ℕ) → numeral base n ≡ map dtoa (numeral_digits base n)
unfolding numeral numeral_digits dtoa
numeral_lem base n = elim (Bool-cases (n == 0)) [ inl e ↦ rw e | inr e ↦ rw e ]

numeral_digits-AllLe : (base n : ℕ) → 0 < base → base ≤ 16 → AllLe 15 (numeral_digits base n)
unfolding numeral_digits
numeral_digits-AllLe base n hb hs = elim (Bool-cases (n == 0)) [
  | inl e ↦ rw e (omega arith, tt)
  | inr e ↦ rw e (digits-AllLe buf_size base n hb hs)
]

-- The text of a number reads back as the number, in every base up to 16 whose 20 digits hold it.
pub of_text-numeral :
    (base n : ℕ) → 0 < base → base ≤ 16 → n < base ^ buf_size → of_text base 0 (numeral base n) ≡ n
unfolding numeral of_text undigit
of_text-numeral base n hb hs hn = elim (Bool-cases (n == 0)) [
  | inl e ↦ rw e (ground arith)
  | inr e ↦ rw e (
      of_text-map-dtoa base 0 (digits buf_size base n) (digits-AllLe buf_size base n hb hs)
      ∙ of_digits-digits buf_size base n hb hn)
]

-- `kprint_uint` prints the numeral: its 20 bytes of buffer and the rounds suffice for a number
-- of at most 20 digits.
pub kprint_uint-numeral :
    (base n color : ℕ) (s : Screen)
    → 0 < base
    → n < base ^ buf_size
    → kprint_uint n color base s ≡ put_text color (numeral base n) s
unfolding kprint_uint numeral put_text
kprint_uint-numeral base n color s hb hn = elim (Bool-cases (n == 0)) [
  | inl e ↦ rw e (sym (put_text-one color b'0' s))
  | inr e ↦
      let ((i, buf), el, w) =
        digit_loop-Written buf_size 65 base n 0 (replicate buf_size 0) hb hn (omega arith)
          (omega arith) in
      rw (e, el)
        (put_back-put_text i buf color s
            (omega (arith, w.count, w.size, length-digits-le buf_size base n))
          ∙ ap (λ cs. put_text color cs s) (w.bytes ∙ append-nil _))
]

-- The text of a 64-bit pattern read as a signed number: a minus sign and its magnitude.
unfoldable pub signed_numeral : ℕ → ℕ → List ℕ
signed_numeral base num =
    if leb (2 ^ 63) num then b'-' ∷ numeral base (2 ^ 64 - num) else numeral base num

-- `kprint_int` in decimal prints a minus sign and the magnitude of a negative number, and the
-- numeral of any other, also for the least number, whose magnitude is not an `intmax_t`.
pub kprint_int-signed_numeral :
    (num color : ℕ) (s : Screen)
    → num < 2 ^ 64
    → kprint_int num color 10 s ≡ put_text color (signed_numeral 10 num) s
unfolding kprint_int signed_numeral put_text
kprint_int-signed_numeral num color s h = elim (Bool-cases (leb (2 ^ 63) num)) [
  | inl e ↦ rw e (
      bind_cong (vga_putc b'-' color s) _ _
        λ t. kprint_uint-numeral 10 (2 ^ 64 - num) color t (omega arith) (ground arith))
  | inr e ↦ rw e (kprint_uint-numeral 10 num color s (omega arith) (omega arith))
]

-- The number that a 64-bit pattern stands for.
abbrev pub signed64 : ℕ → ℤ
signed64 w = if leb (2 ^ 63) w then negsuc (2 ^ 64 - w - 1) else pos w

abbrev neg : ℕ → ℤ
neg n = if n == 0 then pos 0 else negsuc (n - 1)

-- The reading of a decimal text with or without a sign.
unfoldable pub of_signed_text : List ℕ → ℤ
of_signed_text [] = pos 0
of_signed_text (c ∷ cs) = if c == b'-' then neg (of_text 10 0 cs) else pos (of_text 10 0 (c ∷ cs))

dtoa-ne-minus : (d : ℕ) → d ≤ 15 → (dtoa d == b'-') ≡ false
unfolding dtoa
dtoa-ne-minus d h = ground arith

of_signed_text-map-dtoa :
    (ds : List ℕ) → AllLe 15 ds → of_signed_text (map dtoa ds) ≡ pos (of_text 10 0 (map dtoa ds))
unfolding of_signed_text
of_signed_text-map-dtoa [] h = unfold of_text in refl
of_signed_text-map-dtoa (d ∷ ds) h = rw (dtoa-ne-minus d h.0)

of_signed_text-numeral : (n : ℕ) → n < 2 ^ 64 → of_signed_text (numeral 10 n) ≡ pos n
of_signed_text-numeral n h =
    ap of_signed_text (numeral_lem 10 n)
    ∙ of_signed_text-map-dtoa (numeral_digits 10 n)
        (numeral_digits-AllLe 10 n (omega arith) (omega arith))
    ∙ ap pos (
        ap (of_text 10 0) (sym (numeral_lem 10 n))
        ∙ of_text-numeral 10 n (omega arith) (omega arith) (omega arith))

-- The signed text reads back as the number that the pattern stands for.
pub of_signed_text-signed_numeral :
    (num : ℕ) → num < 2 ^ 64 → of_signed_text (signed_numeral 10 num) ≡ signed64 num
unfolding signed_numeral of_signed_text
of_signed_text-signed_numeral num h = elim (Bool-cases (leb (2 ^ 63) num)) [
  | inl e ↦ rw e (
      rw (of_text-numeral 10 (2 ^ 64 - num) (omega arith) (omega arith) (ground arith))
        (ground arith))
  | inr e ↦ rw e (of_signed_text-numeral num h)
]

-- `kprint_uint` prints a text that reads back as the number, in every base from 1 to 16 whose 20
-- digits hold it: the 20 bytes of the buffer and the rounds of the loop suffice.
pub kprint_uint-reads :
    (base n color : ℕ) (s : Screen)
    → 0 < base
    → base ≤ 16
    → n < base ^ buf_size
    → (cs : List ℕ) × (kprint_uint n color base s ≡ put_text color cs s) × (of_text base 0 cs ≡ n)
kprint_uint-reads base n color s hb hs hn =
    (numeral base n, kprint_uint-numeral base n color s hb hn, of_text-numeral base n hb hs hn)

-- `kprint_int` in decimal prints a text that reads back as the signed number that the 64-bit
-- pattern stands for, the least one included.
pub kprint_int-reads :
    (num color : ℕ) (s : Screen)
    → num < 2 ^ 64
    → (cs : List ℕ) × (kprint_int num color 10 s ≡ put_text color cs s)
      × (of_signed_text cs ≡ signed64 num)
kprint_int-reads num color s h = (
  signed_numeral 10 num,
  kprint_int-signed_numeral num color s h,
  of_signed_text-signed_numeral num h,
)

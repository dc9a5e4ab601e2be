-- ===== src/Keyboard/Line.antt =====
-- kernel/keyboard.c, `kbd_readline`: the copy of a line out of the keyboard buffer.
use Prim.Native.Nat.{min}
use mathlib.Core.Option
use feudos.Prelude.{
  ℕ, zero, suc, ◌+◌, ◌-◌, ◌^◌, ◌≤◌, ◌<◌, ◌≡◌, ◌∙◌, refl, ap, sym, none, some, List, [], ◌∷◌, ◌++◌,
  arith, length, get_elem?, set, take, drop, length-take, length-drop, length-append,
  get_elem?-set_self, lt→ltb, Yields,
}
use feudos.Str.{kmemcpy}
use feudos.Str.Copy.{kmemcpy-take}
use feudos.Keyboard.{KbdBuffer, kbd_buf_size, copy_line, copy_bytes, copied_length}
use feudos.Keyboard.Edit.{IsValid, typed}

-- The text behind the position at which the reading began.
abbrev pub line_of : ℕ → KbdBuffer → List ℕ
line_of start k = drop start (typed k)

take-append_left : (n : ℕ) (xs ys : List ℕ) → n ≤ length xs → take n (xs ++ ys) ≡ take n xs
take-append_left zero xs ys h = refl
take-append_left (suc n) [] ys h = absurd (omega arith)
take-append_left (suc n) (x ∷ xs) ys h = ap (λ r. x ∷ r) (take-append_left n xs ys (omega arith))

take-set_ge : (n i v : ℕ) (xs : List ℕ) → n ≤ i → take n (set xs i v) ≡ take n xs
take-set_ge zero i v xs h = refl
take-set_ge (suc n) i v [] h = refl
take-set_ge (suc n) zero v (x ∷ xs) h = absurd (omega arith)
take-set_ge (suc n) (suc i) v (x ∷ xs) h = ap (λ r. x ∷ r) (take-set_ge n i v xs (omega arith))

take-drop-take :
    (n s p : ℕ) (xs : List ℕ) → s + n ≤ p → take n (drop s (take p xs)) ≡ take n (drop s xs)
take-drop-take zero s p xs h = refl
take-drop-take (suc n) zero zero xs h = absurd (omega arith)
take-drop-take (suc n) zero (suc p) [] h = refl
take-drop-take (suc n) zero (suc p) (x ∷ xs) h =
    ap (λ r. x ∷ r) (take-drop-take n zero p xs (omega arith))
take-drop-take (suc n) (suc s) zero xs h = absurd (omega arith)
take-drop-take (suc n) (suc s) (suc p) [] h = refl
take-drop-take (suc n) (suc s) (suc p) (x ∷ xs) h = take-drop-take (suc n) s p xs (omega arith)

take-take : (n : ℕ) (xs : List ℕ) → take n (take n xs) ≡ take n xs
take-take zero xs = refl
take-take (suc n) [] = refl
take-take (suc n) (x ∷ xs) = ap (λ r. x ∷ r) (take-take n xs)

-- A reading that ends in front of no earlier text than it began with.
pub record Copied (start max : ℕ) (k : KbdBuffer) (out : List ℕ × ℕ) : Type 0 where
  pub count : out.1 ≡ min (length (line_of start k)) (max - 1)
  pub bytes : take out.1 out.0 ≡ take out.1 (line_of start k)
  pub ended : get_elem? out.0 out.1 ≡ some 0

-- The copy of n bytes behind `start`, whatever they are, and the terminator.
copy_bytes-take :
    (start n : ℕ) (dst : List ℕ) (k : KbdBuffer)
    → n < length dst
    → start + n ≤ length k.buf
    → Yields
        (λ out. (take n out ≡ take n (drop start k.buf)) × (get_elem? out n ≡ some 0))
        (copy_bytes start dst n k)
unfolding copy_bytes
copy_bytes-take start n dst k hd hb =
    let src = drop start k.buf in
    let m : List ℕ = take n src ++ drop n dst in
    let ls : n ≤ length src = omega (arith, length-drop start k.buf) in
    let lm : n < length m =
      omega
        (arith, length-append (take n src) (drop n dst), length-take n src, length-drop n dst) in
    (
      set m n 0,
      rw (kmemcpy-take dst src n (omega arith) ls, lt→ltb n (length m) lm),
      (
        take-set_ge n n 0 m (omega arith)
            ∙ take-append_left n (take n src) (drop n dst) (omega (arith, length-take n src))
            ∙ take-take n src,
        get_elem?-set_self m n 0 lm,
      ),
    )

-- The length, where the position is not below the start, and where it is.
copied_length-min :
    (start max : ℕ) (k : KbdBuffer)
    → k.pos < kbd_buf_size
    → start ≤ k.pos
    → 0 < max
    → max < 2 ^ 64
    → copied_length start max k ≡ min (k.pos - start) (max - 1)
unfolding copied_length
copied_length-min start max k hk hs hm hw = ground arith

copied_length_wraps :
    (start max : ℕ) (k : KbdBuffer)
    → k.pos < start
    → start < kbd_buf_size
    → 0 < max
    → max ≤ 2 ^ 63
    → copied_length start max k ≡ max - 1
unfolding copied_length
copied_length_wraps start max k hp hs hm hx = ground arith

-- Where the position is not below the start of the reading, `kbd_readline` returns the length of
-- the line, cut to `max - 1`, and has copied that many bytes of the line and a NUL behind them.
pub copy_line-Copied :
    (start max : ℕ) (dst : List ℕ) (k : KbdBuffer)
    → IsValid k
    → start ≤ k.pos
    → 0 < max
    → max ≤ length dst
    → max < 2 ^ 64
    → Yields (Copied start max k) (copy_line start dst max k)
unfolding copy_line
copy_line-Copied start max dst k v hs hm hd hw =
    let n = copied_length start max k in
    let en : n ≡ min (k.pos - start) (max - 1) = copied_length-min start max k v.room hs hm hw in
    let len_line : length (line_of start k) ≡ k.pos - start =
      omega (arith, length-drop start (typed k), length-take k.pos k.buf, v.size, v.room) in
    let (out, eo, (same, end)) =
      copy_bytes-take start n dst k (omega arith) (omega (arith, v.size, v.room)) in
    (
      (out, n),
      rw eo,
      record {
        count = omega arith;
        bytes = same ∙ sym (take-drop-take n start k.pos k.buf (omega arith));
        ended = end;
      },
    )

kmemcpy_short : (dst src : List ℕ) (n : ℕ) → length src < n → kmemcpy dst src n ≡ none
unfolding kmemcpy
kmemcpy_short dst src zero h = absurd (omega arith)
kmemcpy_short [] src (suc n) h = refl
kmemcpy_short (d ∷ dst) [] (suc n) h = refl
kmemcpy_short (d ∷ dst) (x ∷ src) (suc n) h =
    ap (Option.map (λ r. x ∷ r)) (kmemcpy_short dst src n (omega arith))

-- Where the position is below the start, as after the buffer has begun anew or a backspace has
-- taken earlier text, the length wraps, and the code copies `max - 1` bytes from the start: past
-- the end of the buffer where it holds fewer from there, which is a fault.
pub copy_line_wraps :
    (start max : ℕ) (dst : List ℕ) (k : KbdBuffer)
    → IsValid k
    → k.pos < start
    → start < kbd_buf_size
    → 0 < max
    → max ≤ 2 ^ 63
    → kbd_buf_size < start + (max - 1)
    → copy_line start dst max k ≡ none
unfolding copy_line copy_bytes
copy_line_wraps start max dst k v hp hs hm hx hb = rw (
  copied_length_wraps start max k hp hs hm hx,
  kmemcpy_short dst (drop start k.buf) (max - 1) (omega (arith, length-drop start k.buf, v.size)),
)

-- Where the buffer holds as many bytes from the start, the code returns these instead of a line.
pub copy_line_stale :
    (start max : ℕ) (dst : List ℕ) (k : KbdBuffer)
    → IsValid k
    → k.pos < start
    → start < kbd_buf_size
    → 0 < max
    → max ≤ length dst
    → max ≤ 2 ^ 63
    → start + (max - 1) ≤ kbd_buf_size
    → Yields
        (λ (bytes, n).
          (n ≡ max - 1) × (take n bytes ≡ take n (drop start k.buf)) × (get_elem? bytes n ≡ some 0))
        (copy_line start dst max k)
unfolding copy_line
copy_line_stale start max dst k v hp hs h0 hd hx hb =
    let n = copied_length start max k in
    let count : n ≡ max - 1 = copied_length_wraps start max k hp hs h0 hx in
    let (out, eo, (same, end)) =
      copy_bytes-take start n dst k (omega arith) (omega (arith, v.size)) in
    ((out, n), rw eo, (count, same, end))

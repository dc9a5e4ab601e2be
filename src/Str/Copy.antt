-- ===== src/Str/Copy.antt =====
-- `strncpy_f` of util/str.c and `kmemcpy` of util/memops.c.
use mathlib.Core.Option
use feudos.Prelude.{
  ℕ, zero, suc, ◌-◌, ◌≤◌, ◌≡◌, refl, ap, some, List, [], ◌∷◌, ◌++◌, arith, length, replicate, take,
  drop,
}
use feudos.Str.{pad, strncpy_f, kmemcpy, Lacks}

-- With room in the destination for n bytes and n bytes in the source, `kmemcpy` replaces exactly
-- the first n bytes of the destination by those of the source.
pub kmemcpy-take :
    (dst src : List ℕ) (n : ℕ)
    → n ≤ length dst
    → n ≤ length src
    → kmemcpy dst src n ≡ some (take n src ++ drop n dst)
unfolding kmemcpy
kmemcpy-take dst src zero hd hs = refl
kmemcpy-take [] src (suc n) hd hs = absurd (omega arith)
kmemcpy-take (d ∷ dst) [] (suc n) hd hs = absurd (omega arith)
kmemcpy-take (d ∷ dst) (s ∷ src) (suc n) hd hs =
    ap (Option.map (λ r. s ∷ r)) (kmemcpy-take dst src n (omega arith) (omega arith))

pad-replicate :
    (n : ℕ) (dst : List ℕ) → n ≤ length dst → pad n dst ≡ some (replicate n 0 ++ drop n dst)
unfolding pad
pad-replicate zero dst h = refl
pad-replicate (suc n) [] h = absurd (omega arith)
pad-replicate (suc n) (d ∷ dst) h = ap (Option.map (λ r. 0 ∷ r)) (pad-replicate n dst (omega arith))

-- With room for `max` bytes, `strncpy_f` writes exactly the first `max` bytes of the text, filled
-- up with NULs, and leaves the rest of the destination: a text of `max` bytes or more is cut
-- with no terminator.
pub strncpy_f-take :
    (dst s r : List ℕ) (max : ℕ)
    → Lacks 0 s
    → max ≤ length dst
    → strncpy_f dst (s ++ 0 ∷ r) max
      ≡ some (take max s ++ replicate (max - length s) 0 ++ drop max dst)
unfolding strncpy_f
strncpy_f-take dst [] r zero h0 hd = ground arith
strncpy_f-take dst (x ∷ s) r zero h0 hd = ground arith
strncpy_f-take [] s r (suc n) h0 hd = absurd (omega arith)
strncpy_f-take (d ∷ dst) [] r (suc n) h0 hd = ground (arith, pad-replicate (suc n) (d ∷ dst))
strncpy_f-take (d ∷ dst) (x ∷ s) r (suc n) h0 hd = ground (arith, strncpy_f-take dst s r n)

-- ===== src/Printf.antt =====
-- kernel/vga.c from `kprint_uint` on: the formatted output of the kernel, and `kernel/log.c`.
-- The proofs are in the modules below.
pub mod Digits
pub mod Numeral
pub mod Format
pub mod Directive
pub mod Refine
pub mod Shown
pub mod Faults
pub mod Kinds
pub mod Types
pub mod Prints
mod Tests
use feudos.Prelude.{
  ℕ, zero, suc, ◌+◌, ◌-◌, ◌*◌, ◌/◌, ◌%◌, ◌^◌, Bool, Option, none, some, List, [], ◌∷◌, ltb, leb,
  ◌==◌, if◌then◌else◌, get_elem?, replicate, ◌>>=◌, check, store,
}
use feudos.Str.{dtoa}
use feudos.Vga.{Screen, u8, vga_putc, vga_print, vga_change_text_color}

-- What `va_arg` can find: a register or stack word of 64 bits, or a pointer to a text. A directive
-- that finds the other kind faults.
pub data Arg : Type 0 where
  word : ℕ → Arg
  text : List ℕ → Arg

-- The size of `buf` in `kprint_uint`.
abbrev pub buf_size : ℕ
buf_size = 20

-- The `while` of `kprint_uint`; a division by a base of 0 faults. The fuel bounds the rounds.
pub digit_loop : ℕ → ℕ → ℕ → ℕ → List ℕ → Option (ℕ × List ℕ)
digit_loop zero base n i buf = none
digit_loop (suc fuel) base n i buf =
    if n == 0
    then some (i, buf)
    else check (ltb 0 base)
        do buf' ← store buf i (dtoa (n % base)); digit_loop fuel base (n / base) (i + 1) buf'

-- for (int j = i - 1; j >= 0; j--) vga_putc(buf[j], color), from `i`.
pub put_back : ℕ → List ℕ → ℕ → Screen → Option Screen
put_back zero buf color s = some s
put_back (suc j) buf color s = do
  c ← get_elem? buf j
  t ← vga_putc c color s
  put_back j buf color t

-- 64 rounds are enough for a base of two or more, see `Digits`.
pub kprint_uint : ℕ → ℕ → ℕ → Screen → Option Screen
kprint_uint n color base s =
    if n == 0
    then vga_putc b'0' color s
    else do (i, buf) ← digit_loop 65 base n 0 (replicate buf_size 0); put_back i buf color s

-- An `intmax_t` as its 64-bit pattern; `-(uintmax_t)num` wraps.
pub kprint_int : ℕ → ℕ → ℕ → Screen → Option Screen
kprint_int num color base s =
    if leb (2 ^ 63) num
    then (do t ← vga_putc b'-' color s; kprint_uint (2 ^ 64 - num) color base t)
    else kprint_uint num color base s

-- `va_arg(args, int)` as an `intmax_t`: the low 32 bits, with the sign extended.
unfoldable pub sign_extend32 : ℕ → ℕ
sign_extend32 w = let x = w % 2 ^ 32 in if leb (2 ^ 31) x then x + (2 ^ 64 - 2 ^ 32) else x

-- The next word or text of the arguments.
unfoldable pub next_word : List Arg → Option (ℕ × List Arg)
next_word [] = none
next_word (word w ∷ args) = some (w % 2 ^ 64, args)
next_word (text t ∷ args) = none

unfoldable pub next_text : List Arg → Option (List ℕ × List Arg)
next_text [] = none
next_text (word w ∷ args) = none
next_text (text t ∷ args) = some (t, args)

-- Where `kvprintf` stands in the format: outside a directive, behind '%', or behind "%l".
pub data Mode : Type 0 where
  plain percent long : Mode

-- The cases of the `switch` but 'l'.
unfoldable pub directive : ℕ → List Arg → Screen → Option (List Arg × Screen)
directive c args s =
    if c == b'd'
    then (do
      (w, rest) ← next_word args
      t ← kprint_int (sign_extend32 w) s.text_color 10 s
      some (rest, t))
    else if c == b'u'
    then (do
      (w, rest) ← next_word args
      t ← kprint_uint (w % 2 ^ 32) s.text_color 10 s
      some (rest, t))
    else if c == b'c'
    then (do (w, rest) ← next_word args; t ← vga_putc (u8 w) s.text_color s; some (rest, t))
    else if c == b's'
    then (do (x, rest) ← next_text args; t ← vga_print x s.text_color s; some (rest, t))
    else if c == b'X'
    then (do (w, rest) ← next_word args; t ← kprint_uint w s.text_color 16 s; some (rest, t))
    else if c == b'k'
    then (do (w, rest) ← next_word args; some (rest, vga_change_text_color (u8 w) s))
    else (do t ← vga_putc b'%' s.text_color s; u ← vga_putc c t.text_color t; some (args, u))

-- The cases of the inner `switch`, behind "%l".
unfoldable pub long_directive : ℕ → List Arg → Screen → Option (List Arg × Screen)
long_directive c args s =
    if c == b'd'
    then (do (w, rest) ← next_word args; t ← kprint_int w s.text_color 10 s; some (rest, t))
    else if c == b'u'
    then (do (w, rest) ← next_word args; t ← kprint_uint w s.text_color 10 s; some (rest, t))
    else (do
      t ← vga_print (b'%' ∷ b'l' ∷ 0 ∷ []) s.text_color s
      u ← vga_putc c t.text_color t
      some (args, u))

-- The loop over the format, a byte at a time. The byte behind "%l" is not tested for the
-- terminator.
unfoldable pub kvprintf_loop : Mode → List ℕ → List Arg → Screen → Option Screen
kvprintf_loop mode [] args s = none
kvprintf_loop plain (c ∷ msg) args s =
    let inside = kvprintf_loop percent msg args s in
    if c == 0
    then some s
    else if c == b'%'
    then inside
    else (do t ← vga_putc c s.text_color s; kvprintf_loop plain msg args t)
kvprintf_loop percent (c ∷ msg) args s =
    let behind_l = kvprintf_loop long msg args s in
    if c == 0
    then some s
    else if c == b'l'
    then behind_l
    else (do (rest, t) ← directive c args s; kvprintf_loop plain msg rest t)
kvprintf_loop long (c ∷ msg) args s = do
  (rest, t) ← long_directive c args s
  kvprintf_loop plain msg rest t

unfoldable pub kvprintf : List ℕ → List Arg → Screen → Option Screen
kvprintf msg args s = kvprintf_loop plain msg args s

unfoldable pub kprintf : List ℕ → List Arg → Screen → Option Screen
kprintf msg args s = kvprintf msg args s

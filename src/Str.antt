-- ===== src/Str.antt =====
-- util/str.c, util/memops.c and util/ascii.c: C strings, the byte copies and the digits.
-- A pointer into an array of bytes is the list of the bytes from it to the end of the array, so a
-- list that ends before a NUL is read past its end, which is a fault (`none`).
pub mod Compare
pub mod Lexeme
pub mod Scan
pub mod Copy
mod Tests
use Prim.Native.String.{String}
use Prim.Native.Char.{code}
use mathlib.Core.Option
use feudos.Prelude.{
  ℕ, zero, suc, ◌+◌, ◌-◌, ◌%◌, ◌≢◌, Bool, false, ◌&&◌, ◌||◌, Option, none, some, List, [], ◌∷◌, leb,
  ◌==◌, if◌then◌else◌,
}
use feudos.Prelude.Int.{ℤ, pos, negsuc}

-- The bytes of a literal of the source, and the same with the terminator.
abbrev pub codes : String → List ℕ
codes String.[] = []
codes (String.◌∷◌ c s) = code c ∷ codes s

abbrev pub c_string : String → List ℕ
c_string String.[] = 0 ∷ []
c_string (String.◌∷◌ c s) = code c ∷ c_string s

-- The loop reads `b[i]` only after `a[i]`; a fault in either is a fault.
unfoldable pub streq : List ℕ → List ℕ → Option Bool
streq [] b = none
streq (x ∷ a) [] = none
streq (x ∷ a) (y ∷ b) =
    let rest = streq a b in
    if x == 0 || y == 0 then some (x == 0 && y == 0) else if x == y then rest else some false

strl_loop : ℕ → List ℕ → Option ℕ
strl_loop c [] = none
strl_loop c (x ∷ a) = let rest = strl_loop (c + 1) a in if x == 0 then some c else rest

unfoldable pub strl : List ℕ → Option ℕ
unfolding strl_loop
strl a = strl_loop 0 a

unfoldable pub isalnum : ℕ → Bool
isalnum c = leb b'0' c && leb c b'9' || leb b'A' c && leb c b'Z' || leb b'a' c && leb c b'z'

-- `cur - 1`, as an offset from `a`: it may point one byte before the string.
abbrev pub before : ℕ → ℤ
before i = if i == 0 then negsuc 0 else pos (i - 1)

-- `i` is `cur - a`.
strfle_loop : ℕ → ℕ → List ℕ → Option ℤ
strfle_loop sep i [] = none
strfle_loop sep i (c ∷ cur) =
    let rest = strfle_loop sep (suc i) cur in
    if c == 0
    then some (before i)
    else if c == sep
    then (if i == 0 then some (pos 0) else some (before i))
    else rest

-- The returned pointer, as an offset from `a`.
unfoldable pub strfle : List ℕ → ℕ → Option ℤ
unfolding strfle_loop
strfle a sep = strfle_loop sep 0 a

strfnl_loop : ℕ → ℕ → Bool → List ℕ → Option (Option ℕ)
strfnl_loop sep i ended [] = none
strfnl_loop sep i ended (c ∷ cur) =
    let rest = strfnl_loop sep (suc i) (c == sep || ended) cur in
    if c == 0 then some none else if c == sep then rest else if ended then some (some i) else rest

-- `some none` is NULL; a pointer is its offset from `a`.
unfoldable pub strfnl : List ℕ → ℕ → Option (Option ℕ)
unfolding strfnl_loop
strfnl a sep = strfnl_loop sep 0 false a

-- The second loop: `max - i` bytes from `dst + i` on become NUL.
pad : ℕ → List ℕ → Option (List ℕ)
pad zero dst = some dst
pad (suc n) [] = none
pad (suc n) (d ∷ dst) = Option.map (λ r. 0 ∷ r) (pad n dst)

-- `src[i]` is read before `dst[i]` is written.
unfoldable pub strncpy_f : List ℕ → List ℕ → ℕ → Option (List ℕ)
unfolding pad
strncpy_f dst src zero = some dst
strncpy_f dst [] (suc n) = none
strncpy_f [] (x ∷ src) (suc n) = none
strncpy_f (d ∷ dst) (x ∷ src) (suc n) =
    let rest = strncpy_f dst src n in
    if x == 0 then pad (suc n) (d ∷ dst) else Option.map (λ r. x ∷ r) rest

unfoldable pub kmemcpy : List ℕ → List ℕ → ℕ → Option (List ℕ)
kmemcpy dst src zero = some dst
kmemcpy [] src (suc n) = none
kmemcpy (d ∷ dst) [] (suc n) = none
kmemcpy (d ∷ dst) (s ∷ src) (suc n) = Option.map (λ r. s ∷ r) (kmemcpy dst src n)

-- `char` is signed: a byte from 128 on is negative, hence at most 9.
unfoldable pub dtoa : ℕ → ℕ
dtoa digit =
    if leb digit 9 || leb 128 digit
    then (b'0' + digit) % 256
    else if leb digit 15
    then b'A' + (digit - 10)
    else 0

-- No byte of the list is `z`.
abbrev pub Lacks : ℕ → List ℕ → Type 0
Lacks z [] = Unit {0}
Lacks z (c ∷ cs) = (c ≢ z) × Lacks z cs

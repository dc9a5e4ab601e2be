-- ===== src/Keyboard/Layout.antt =====
-- kernel/keyboard.c, the two tables of scancodes: they are the rows of a US keyboard.
use feudos.Prelude.{
  ℕ, zero, suc, ◌+◌, ◌-◌, ◌<◌, ◌≡◌, ◌∙◌, ap, refl, Bool, true, false, some, List, [], ◌∷◌, ◌&&◌,
  ltb, leb, if◌then◌else◌, arith, length, get_elem?, get_or,
}
use feudos.Str.{codes}
use feudos.Keyboard.{scancode_char, scancode_ascii, scancode_ascii_shift}

-- Keys with consecutive scancodes, and what they enter without and with shift.
pub record KeyRow : Type 0 where
  pub from : ℕ
  pub plain : List ℕ
  pub with_shift : List ℕ

-- Escape, the row of digits with backspace and tab behind it, the three rows of letters with the
-- return key behind the first, the star of the keypad, and the space bar.
abbrev pub us_layout : List KeyRow
us_layout =
    record { from = 0x01; plain = 27 ∷ []; with_shift = 27 ∷ [] }
    ∷ record { from = 0x02; plain = codes "1234567890-="; with_shift = codes "!@#$%^&*()_+" }
    ∷ record { from = 0x0E; plain = 8 ∷ 9 ∷ []; with_shift = 8 ∷ 9 ∷ [] }
    ∷ record { from = 0x10; plain = codes "qwertyuiop[]\n"; with_shift = codes "QWERTYUIOP{}\n" }
    ∷ record { from = 0x1E; plain = codes "asdfghjkl;'`"; with_shift = codes "ASDFGHJKL:\"~" }
    ∷ record { from = 0x2B; plain = codes "\\zxcvbnm,./"; with_shift = codes "|ZXCVBNM<>?" }
    ∷ record { from = 0x37; plain = codes "*"; with_shift = codes "*" }
    ∷ record { from = 0x39; plain = codes " "; with_shift = codes " " }
    ∷ []

-- The character of a key, 0 where it has none.
unfoldable pub key_char : List KeyRow → Bool → ℕ → ℕ
key_char [] shift code = 0
key_char (r ∷ rows) shift code =
    let rest = key_char rows shift code in
    if leb r.from code && ltb code (r.from + length r.plain)
    then get_or (if shift then r.with_shift else r.plain) (code - r.from) 0
    else rest

tabulate : ℕ → ℕ → (ℕ → ℕ) → List ℕ
tabulate zero a f = []
tabulate (suc n) a f = f a ∷ tabulate n (suc a) f

get_elem?-tabulate :
    (n a i : ℕ) (f : ℕ → ℕ) → i < n → get_elem? (tabulate n a f) i ≡ some (f (a + i))
unfolding tabulate
get_elem?-tabulate zero a i f h = absurd (omega arith)
get_elem?-tabulate (suc n) a zero f h = ap (λ x. some (f x)) (omega arith)
get_elem?-tabulate (suc n) a (suc i) f h =
    get_elem?-tabulate n (suc a) i f (omega arith) ∙ ap (λ x. some (f x)) (omega arith)

plain_table : scancode_ascii ≡ tabulate 128 0 (key_char us_layout false)
unfolding tabulate key_char
plain_table = refl

shift_table : scancode_ascii_shift ≡ tabulate 128 0 (key_char us_layout true)
unfolding tabulate key_char
shift_table = refl

table_read :
    (table : List ℕ) (f : ℕ → ℕ) (code : ℕ)
    → table ≡ tabulate 128 0 f
    → code < 128
    → get_elem? table code ≡ some (f code)
table_read table f code e h =
    ap (λ t. get_elem? t code) e
    ∙ get_elem?-tabulate 128 0 code f h
    ∙ ap (λ i. some (f i)) (omega arith)

-- The table that the shift state selects has the key's character at its code.
pub scancode_char-key_char :
    (shift : Bool) (code : ℕ)
    → code < 128
    → scancode_char shift code ≡ some (key_char us_layout shift code)
unfolding scancode_char
scancode_char-key_char true code h =
    table_read scancode_ascii_shift (key_char us_layout true) code shift_table h
scancode_char-key_char false code h =
    table_read scancode_ascii (key_char us_layout false) code plain_table h

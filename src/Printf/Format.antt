-- ===== src/Printf/Format.antt =====
-- kernel/vga.c, `kvprintf`: what a format prints, whatever the screen shows.
use feudos.Prelude.{
  ℕ, ◌%◌, ◌^◌, Option, none, some, List, [], ◌∷◌, ◌++◌, map, ◌==◌, if◌then◌else◌, ◌>>=◌,
}
use feudos.Vga.{Screen, u8, vga_putc, vga_change_text_color}
use feudos.Str.Compare.{c_text}
use feudos.Printf.{Arg, sign_extend32, next_word, next_text, Mode, plain, percent, long}
use feudos.Printf.Numeral.{numeral, signed_numeral}

-- A character printed in the current colour, or a change of that colour.
pub data Event : Type 0 where
  put : ℕ → Event
  recolor : ℕ → Event

-- The events on a screen, in order.
unfoldable pub replay : List Event → Screen → Option Screen
replay [] s = some s
replay (put c ∷ es) s = vga_putc c s.text_color s >>= replay es
replay (recolor k ∷ es) s = replay es (vga_change_text_color k s)

-- What a directive takes of the arguments and prints; `none` where the argument is missing or of
-- the other kind.
unfoldable pub directive_events : ℕ → List Arg → Option (List Event × List Arg)
directive_events c args =
    if c == b'd'
    then (do (w, rest) ← next_word args; some (map put (signed_numeral 10 (sign_extend32 w)), rest))
    else if c == b'u'
    then (do (w, rest) ← next_word args; some (map put (numeral 10 (w % 2 ^ 32)), rest))
    else if c == b'c'
    then (do (w, rest) ← next_word args; some (put (u8 w) ∷ [], rest))
    else if c == b's'
    then (do (x, rest) ← next_text args; cs ← c_text x; some (map put cs, rest))
    else if c == b'X'
    then (do (w, rest) ← next_word args; some (map put (numeral 16 w), rest))
    else if c == b'k'
    then (do (w, rest) ← next_word args; some (recolor (u8 w) ∷ [], rest))
    else some (put b'%' ∷ put c ∷ [], args)

unfoldable pub long_events : ℕ → List Arg → Option (List Event × List Arg)
long_events c args =
    if c == b'd'
    then (do (w, rest) ← next_word args; some (map put (signed_numeral 10 w), rest))
    else if c == b'u'
    then (do (w, rest) ← next_word args; some (map put (numeral 10 w), rest))
    else some (put b'%' ∷ put b'l' ∷ put c ∷ [], args)

-- What a whole format prints.
unfoldable pub format : Mode → List ℕ → List Arg → Option (List Event)
format mode [] args = none
format plain (c ∷ msg) args =
    let inside = format percent msg args in
    let rest = format plain msg args in
    if c == 0 then some [] else if c == b'%' then inside else (do es ← rest; some (put c ∷ es))
format percent (c ∷ msg) args =
    let behind_l = format long msg args in
    if c == 0
    then some []
    else if c == b'l'
    then behind_l
    else (do (es, rest) ← directive_events c args; more ← format plain msg rest; some (es ++ more))
format long (c ∷ msg) args = do
  (es, rest) ← long_events c args
  more ← format plain msg rest
  some (es ++ more)

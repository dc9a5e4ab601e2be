-- ===== src/Printf/Tests.antt =====
-- Runs of the formatted output, and its theorems at concrete inputs.
use feudos.Prelude.{ℕ, ◌-◌, ◌^◌, ◌≡◌, refl, true, false, some, none, List, [], ◌∷◌, arith, Yields}
use feudos.Prelude.Int.{negsuc}
use feudos.Vga.Sample.{fresh, fresh-IsValid, wrapped, wrapped-IsValid}
use feudos.Vga.Renders.{Renders, snapshot, snapshot-Renders}
use feudos.Vga.Text.{put_text}
use feudos.Vga.Valid.{IsValid}
use feudos.Printf.{
  Arg, word, text, plain, kprint_int, kvprintf, next_word, next_text, sign_extend32,
}
use feudos.Printf.Digits.{digits}
use feudos.Printf.Numeral.{numeral, signed_numeral, of_signed_text, kprint_int-reads}
use feudos.Printf.Format.{put, replay, format, directive_events, long_events}
use feudos.Printf.Refine.{kvprintf-format}
use feudos.Printf.Kinds.{demands, well_typed}
use feudos.Printf.Types.{Runs, kvprintf-well_typed}
use feudos.Printf.Shown.{print_events, kvprintf-print_events}
use feudos.Str.{dtoa}
use feudos.Str.Compare.{c_text}

texts :
    (numeral 16 0xBEEF ≡ b'B' ∷ b'E' ∷ b'E' ∷ b'F' ∷ [])
    × (numeral 10 0 ≡ b'0' ∷ [])
    × (signed_numeral 10 (2 ^ 64 - 105) ≡ b'-' ∷ b'1' ∷ b'0' ∷ b'5' ∷ [])
unfolding numeral signed_numeral digits dtoa
texts = (refl, refl, refl)

-- "%d%s" with -1 and "ok".
abbrev msg : List ℕ
msg = b'%' ∷ b'd' ∷ b'%' ∷ b's' ∷ 0 ∷ []

abbrev args : List Arg
args = word 0xFFFFFFFF ∷ text (b'o' ∷ b'k' ∷ 0 ∷ []) ∷ []

formatted : format plain msg args ≡ some (put b'-' ∷ put b'1' ∷ put b'o' ∷ put b'k' ∷ [])
unfolding format directive_events next_word next_text sign_extend32 signed_numeral numeral digits
    dtoa c_text
formatted = refl

-- A missing argument is a fault, and so is a format that ends in "%l".
faults :
    (format plain (b'%' ∷ b'u' ∷ 0 ∷ []) [] ≡ none)
    × (format plain (b'%' ∷ b'l' ∷ 0 ∷ []) [] ≡ none)
unfolding format directive_events long_events next_word
faults = (refl, refl)

kprint_int-reads_example :
    (cs : List ℕ) × (kprint_int (2 ^ 64 - 105) 15 10 fresh ≡ put_text 15 cs fresh)
    × (of_signed_text cs ≡ negsuc 104)
kprint_int-reads_example = kprint_int-reads (2 ^ 64 - 105) 15 fresh (omega arith)

kvprintf-format_example :
    (kvprintf msg args fresh ≡ replay (put b'-' ∷ put b'1' ∷ put b'o' ∷ put b'k' ∷ []) fresh)
    × Yields IsValid (kvprintf msg args fresh)
kvprintf-format_example =
    kvprintf-format msg args fresh (put b'-' ∷ put b'1' ∷ put b'o' ∷ put b'k' ∷ []) fresh-IsValid
      formatted

kvprintf-print_events_example :
    Yields
      (λ u.
        IsValid u
        × Renders u (
            print_events 32 4 15
              (put b'-' ∷ put b'1' ∷ put b'o' ∷ put b'k' ∷ [])
              (snapshot wrapped)))
      (kvprintf msg args wrapped)
kvprintf-print_events_example =
    kvprintf-print_events msg args wrapped (snapshot wrapped)
      (put b'-' ∷ put b'1' ∷ put b'o' ∷ put b'k' ∷ []) wrapped-IsValid (omega arith) (omega arith)
      formatted
      (
        (λ e. absurd (omega (arith, e))),
        (
          (λ e. absurd (omega (arith, e))),
          ((λ e. absurd (omega (arith, e))), ((λ e. absurd (omega (arith, e))), tt)),
        ),
      )
      (snapshot-Renders wrapped wrapped-IsValid)

-- "%d%s" demands a word and a text; two words do not fit it, and "%l" at the end has no end.
checked :
    (well_typed msg args ≡ true)
    × (well_typed msg (word 1 ∷ word 2 ∷ []) ≡ false)
    × (well_typed (b'%' ∷ b'l' ∷ 0 ∷ []) [] ≡ false)
unfolding demands c_text
checked = (refl, refl, refl)

kvprintf-well_typed_example :
    Runs (well_typed msg (word 1 ∷ word 2 ∷ [])) (kvprintf msg (word 1 ∷ word 2 ∷ []) fresh)
kvprintf-well_typed_example = kvprintf-well_typed msg (word 1 ∷ word 2 ∷ []) fresh fresh-IsValid

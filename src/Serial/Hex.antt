-- ===== src/Serial/Hex.antt =====
-- arch/x86_64/serial.c, `serial_print_hex`: the text reads back as the number.
use feudos.Prelude.{
  ℕ, zero, suc, ◌+◌, ◌-◌, ◌*◌, ◌/◌, ◌%◌, ◌^◌, ◌<◌, ◌≤◌, ◌≡◌, refl, ◌∙◌, ap, ap₂, false, some, List,
  [], ◌∷◌, ◌++◌, arith, map, length, length-map, AllLe, Yields, Yields-bind, Yields-mono,
  ne→==false, if◌then◌else◌, ◌==◌, ltb, ◌>>=◌,
}
use feudos.Str.{codes, c_string}
use feudos.Str.Compare.{c_text}
use feudos.Io.{Trace, Device, byte}
use feudos.Printf.Numeral.{undigit, of_text}
use feudos.Serial.{hex_char, hex_buffer, serial_print_hex}
use feudos.Serial.Uart.{Uart, uart, divisor_access}
use feudos.Serial.Sending.{Answers, Sends, Sends-append, Sends-sent, and_sent, serial_print-Sends}

-- The n lowest hexadecimal digits of a number, the highest first.
abbrev nibbles : ℕ → ℕ → List ℕ
nibbles zero val = []
nibbles (suc n) val = val / 2 ^ (n * 4) % 2 ^ 4 ∷ nibbles n val

hex_buffer-nibbles : (val : ℕ) → hex_buffer val ≡ some (map hex_char (nibbles 16 val) ++ 0 ∷ [])
unfolding hex_buffer feudos.Prelude.for_range
hex_buffer-nibbles val = refl

undigit-hex_char : (d : ℕ) → d < 16 → undigit (hex_char d) ≡ d
unfolding undigit hex_char
undigit-hex_char d h = ground arith

hex_char-ne : (d : ℕ) → d < 16 → hex_char d == 0 ≡ false
unfolding hex_char
hex_char-ne d h = ground arith

c_text-nibbles :
    (n val : ℕ)
    → c_text (map hex_char (nibbles n val) ++ 0 ∷ []) ≡ some (map hex_char (nibbles n val))
unfolding c_text
c_text-nibbles zero val = refl
c_text-nibbles (suc n) val =
    rw (hex_char-ne (val / 2 ^ (n * 4) % 2 ^ 4) (omega arith), c_text-nibbles n val) refl

of_text-nibbles : (val : ℕ) → val < 2 ^ 64 → of_text 16 0 (map hex_char (nibbles 16 val)) ≡ val
unfolding of_text
of_text-nibbles val h =
    let d : (k : ℕ) → undigit (hex_char (val / 2 ^ k % 16)) ≡ val / 2 ^ k % 16 =
      λ k. undigit-hex_char (val / 2 ^ k % 16) (omega arith) in
    omega (
      arith,
      d 60,
      d 56,
      d 52,
      d 48,
      d 44,
      d 40,
      d 36,
      d 32,
      d 28,
      d 24,
      d 20,
      d 16,
      d 12,
      d 8,
      d 4,
      d 0,
    )

hex_char-byte : (d : ℕ) → d < 16 → byte (hex_char d) ≡ hex_char d
unfolding hex_char
hex_char-byte d h = ground arith

map-byte-nibbles :
    (n val : ℕ) → map byte (map hex_char (nibbles n val)) ≡ map hex_char (nibbles n val)
map-byte-nibbles zero val = refl
map-byte-nibbles (suc n) val =
    ap₂ ◌∷◌ (hex_char-byte (val / 2 ^ (n * 4) % 2 ^ 4) (omega arith)) (map-byte-nibbles n val)

-- Where the port takes a byte within the polls, whatever was accessed before, and its divisor is
-- not accessed, `serial_print_hex` ends. The chip has then sent "0x" and 16 hexadecimal digits
-- that read back as the 64-bit number, each byte once the port could take it, and is otherwise as
-- it was.
pub serial_print_hex-reads :
    (dev : Device) (start : Uart) (polls val : ℕ) (tr : Trace)
    → Answers dev polls
    → divisor_access (uart start tr) ≡ false
    → val < 2 ^ 64
    → Yields
        (λ t.
          (ds : List ℕ) × (length ds ≡ 16)
          × (of_text 16 0 ds ≡ val)
          × Sends dev (codes "0x" ++ ds) tr t
          × (uart start t ≡ and_sent (codes "0x" ++ ds) (uart start tr)))
        (serial_print_hex polls dev val tr)
unfolding serial_print_hex
serial_print_hex-reads dev start polls val tr a h small =
    let ds = map hex_char (nibbles 16 val) in
    Yields-bind _ _
      (serial_print-Sends dev polls (c_string "0x") (codes "0x") tr a (unfold c_text in refl))
      λ t w. rw (hex_buffer-nibbles val) (
        Yields-mono _ (serial_print-Sends dev polls (ds ++ 0 ∷ []) ds t a (c_text-nibbles 16 val))
          λ u w'.
            let all = Sends-append dev w w' in
            (
              ds,
              refl,
              of_text-nibbles val small,
              all,
              Sends-sent dev start all h
                  ∙ ap (λ r. and_sent (b'0' ∷ b'x' ∷ r) (uart start tr)) (map-byte-nibbles 16 val),
            ))

-- ===== src/Keyboard/Scancode.antt =====
-- kernel/keyboard.c: what a scancode does to the shift state, the typed text and the screen.
use feudos.Prelude.{
  lt→ltb, ℕ, ◌/◌, ◌%◌, ◌≤◌, ◌<◌, ◌≡◌, ◌∙◌, refl, ap, sym, not, ◌||◌, some, List, [], ◌∷◌, arith,
  ltb, leb, ◌==◌, if◌then◌else◌, AllLe, get_elem?-AllLe, ◌>>=◌, Yields, Bool, true, false,
  Bool-cases, inl, inr,
}
use feudos.Vga.{Screen, vga_putc}
use feudos.Vga.Valid
use feudos.Vga.Valid.{Printed}
use feudos.Vga.Text.{put_text, put_text-one}
use feudos.Vga.Putc.{vga_putc-Printed}
use feudos.Printf.{word, kprintf}
use feudos.Printf.Format.{put, format, directive_events}
use feudos.Printf.Directive.{char-replay}
use feudos.Printf.Refine.{kvprintf-format}
use feudos.Printf.{next_word}
use feudos.Keyboard.{
  Keyboard, scancode_ascii, scancode_ascii_shift, scancode_char, char_format, kbd_handle_scancode,
  kbd_buffer_push,
}
use feudos.Keyboard.Layout.{us_layout, key_char, scancode_char-key_char}
use feudos.Keyboard.Edit.{IsValid, typed, edit, kbd_buffer_push-edit}

-- `kprintf("%c", c)` is one character in the current colour.
kprintf_char :
    (c : ℕ) (s : Screen)
    → Valid.IsValid s
    → c < 256
    → kprintf char_format (word c ∷ []) s ≡ vga_putc c s.text_color s
unfolding kprintf format directive_events next_word
kprintf_char c s v h =
    (kvprintf-format char_format (word c ∷ []) s (put c ∷ []) v
      (ap (λ n. some (put n ∷ [])) (omega arith))).0
    ∙ sym (char-replay c s)

scancode_ascii-AllLe : AllLe 255 scancode_ascii
scancode_ascii-AllLe = omega arith

scancode_ascii_shift-AllLe : AllLe 255 scancode_ascii_shift
scancode_ascii_shift-AllLe = omega arith

-- Each code is in the tables.
scancode_char-byte :
    (shift : Bool) (code : ℕ)
    → code < 128
    → (c : ℕ) × (scancode_char shift code ≡ some c) × (c ≤ 255)
unfolding scancode_char
scancode_char-byte true code h =
    get_elem?-AllLe 255 scancode_ascii_shift code scancode_ascii_shift-AllLe (omega arith)
scancode_char-byte false code h =
    get_elem?-AllLe 255 scancode_ascii code scancode_ascii-AllLe (omega arith)

-- The left and the right shift key, pressed or released.
abbrev pub is_shift : ℕ → Bool
is_shift sc = sc % 128 == 0x2A || sc % 128 == 0x36

abbrev pub is_release : ℕ → Bool
is_release sc = leb 128 sc

-- The shift state after a scancode: the shift keys set it when pressed and clear it when released.
unfoldable pub shift_after : Bool → ℕ → Bool
shift_after shift sc = if is_shift sc then not (is_release sc) else shift

-- The character that a scancode enters on a US keyboard: none for the shift keys, for a release and
-- for a key that has no character.
unfoldable pub entered : Bool → ℕ → List ℕ
entered shift sc =
    let c = key_char us_layout shift (sc % 128) in
    if is_shift sc || is_release sc then [] else if c == 0 then [] else c ∷ []

-- A text after the characters of a list.
unfoldable pub edit_all : List ℕ → List ℕ → List ℕ
edit_all [] xs = xs
edit_all (c ∷ cs) xs = edit_all cs (edit c xs)

-- The keyboard and the screen after the characters `cs` are entered.
pub record Entered (cs : List ℕ) (k : Keyboard) (s : Screen) (k' : Keyboard) (t : Screen)
    : Type 0 where
  pub valid : IsValid k'.kbd_buf
  pub screen : Printed s t
  pub text : typed k'.kbd_buf ≡ edit_all cs (typed k.kbd_buf)
  pub echo : put_text s.text_color cs s ≡ some t

-- Entering nothing.
pub Entered-nil :
    (k : Keyboard) (s : Screen) (shift : Bool)
    → IsValid k.kbd_buf
    → Valid.IsValid s
    → Entered [] k s (record k { shift_held = shift }) s
unfolding edit_all put_text
Entered-nil k s shift v vs = record {
  valid = record { size = v.size; room = v.room };
  screen = record { valid = vs; same = refl };
  text = refl;
  echo = refl;
}

Entered-one :
    (c : ℕ) (k : Keyboard) (s : Screen)
    → IsValid k.kbd_buf
    → Valid.IsValid s
    → c ≤ 255
    → Yields
        (λ (k', t). Entered (c ∷ []) k s k' t × (k'.shift_held ≡ k.shift_held))
        (do
          pushed ← kbd_buffer_push c k.kbd_buf
          t ← kprintf char_format (word c ∷ []) s
          some (record k { kbd_buf = pushed }, t))
unfolding edit_all
Entered-one c k s v vs h =
    let (b, eb, (vb, tb)) = kbd_buffer_push-edit c k.kbd_buf v in
    let (t, et, p) = vga_putc-Printed s c s.text_color vs in
    (
      (record k { kbd_buf = b }, t),
      rw (eb, kprintf_char c s vs (omega arith), et),
      (
        record { valid = vb; screen = p; text = tb; echo = put_text-one s.text_color c s ∙ et },
        refl,
      ),
    )

release_bit : (sc : ℕ) → sc < 256 → (sc / 128 % 2 == 1) ≡ is_release sc
release_bit sc h = ground arith

below_128 : (sc : ℕ) → ltb (sc % 128) 128 ≡ true
below_128 sc = lt→ltb _ _ (omega arith)

entered-shift : (shift : Bool) (sc : ℕ) → is_shift sc ≡ true → entered shift sc ≡ []
unfolding entered
entered-shift shift sc h = rw h

entered-release : (shift : Bool) (sc : ℕ) → is_release sc ≡ true → entered shift sc ≡ []
unfolding entered
entered-release shift sc h = elim (Bool-cases (is_shift sc)) [
  | inl y ↦ rw (h, y)
  | inr y ↦ rw (h, y)
]

-- The press of a key that is no shift key.
Entered-press :
    (sc : ℕ) (k : Keyboard) (s : Screen)
    → IsValid k.kbd_buf
    → Valid.IsValid s
    → is_shift sc ≡ false
    → is_release sc ≡ false
    → Yields
        (λ (k', t). Entered (entered k.shift_held sc) k s k' t × (k'.shift_held ≡ k.shift_held))
        (do
          c ← scancode_char k.shift_held (sc % 128)
          if c == 0 then some (k, s) else (do
            pushed ← kbd_buffer_push c k.kbd_buf
            t ← kprintf char_format (word c ∷ []) s
            some (record k { kbd_buf = pushed }, t)))
unfolding entered
Entered-press sc k s v vs hs hr =
    let (c, ec, le) = scancode_char-byte k.shift_held (sc % 128) (omega arith) in
    let same : key_char us_layout k.shift_held (sc % 128) ≡ c =
      cc (ec, scancode_char-key_char k.shift_held (sc % 128) (omega arith)) in
    rw (hs, hr, ec, same)
      (elim (Bool-cases (c == 0)) [
        | inl z ↦ rw z ((k, s), refl, (Entered-nil k s k.shift_held v vs, refl))
        | inr z ↦ rw z (Entered-one c k s v vs le)
      ])

pub kbd_handle_scancode-entered :
    (sc : ℕ) (k : Keyboard) (s : Screen)
    → sc < 256
    → IsValid k.kbd_buf
    → Valid.IsValid s
    → Yields
        (λ (k', t).
          Entered (entered k.shift_held sc) k s k' t
          × (k'.shift_held ≡ shift_after k.shift_held sc))
        (kbd_handle_scancode sc k s)
unfolding kbd_handle_scancode shift_after
kbd_handle_scancode-entered sc k s h v vs = rw (release_bit sc h) (elim (Bool-cases (is_shift sc)) [
  | inl y ↦ rw y (
    _,
    refl,
    (rw (entered-shift k.shift_held sc y) (Entered-nil k s (not (is_release sc)) v vs), refl),
  )
  | inr y ↦ rw y (elim (Bool-cases (is_release sc)) [
    | inl r ↦ rw r (
      _,
      refl,
      (rw (entered-release k.shift_held sc r) (Entered-nil k s k.shift_held v vs), refl),
    )
    | inr r ↦ rw (r, below_128 sc) (Entered-press sc k s v vs y r)
  ])
])

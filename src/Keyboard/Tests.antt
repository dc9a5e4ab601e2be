-- ===== src/Keyboard/Tests.antt =====
-- Runs of kernel/keyboard.c, and its theorems at concrete inputs.
use feudos.Prelude.{
  ℕ, ◌++◌, List, some, ◌≡◌, refl, true, false, none, [], ◌∷◌, replicate, arith, Yields,
}
use feudos.Vga.Sample.{fresh, fresh-IsValid}
use feudos.Keyboard.{Keyboard, KbdBuffer, init, kbd_buffer_push, kbd_readline}
use feudos.Keyboard.Layout.{key_char}
use feudos.Keyboard.Keys.{keyed, shifted}
use feudos.Keyboard.Editor.{edits, edit_line, is_complete}
use feudos.Keyboard.Readline.{Reads, complete, line_of_keys, kbd_readline-Reads}
use feudos.Keyboard.Edit.{IsValid, typed, edit, kbd_buffer_push-edit}
use feudos.Keyboard.Scancode.{entered, shift_after}
use feudos.Keyboard.Whole.{text_of_keys, kbd_readline-Behaves}
use feudos.Keyboard.Scancode.{edit_all}

-- "hi\n" typed.
abbrev hi : KbdBuffer
hi = record { buf = b'h' ∷ b'i' ∷ 10 ∷ replicate 2045 0; pos = 3 }

hi-IsValid : IsValid hi
hi-IsValid = record { size = refl; room = omega arith }

init-IsValid : IsValid init.kbd_buf
init-IsValid = record { size = refl; room = omega arith }

keys :
    (entered false 0x1E ≡ b'a' ∷ [])
    × (entered true 0x1E ≡ b'A' ∷ [])
    × (entered true 0x9E ≡ [])
    × (shift_after false 0x2A ≡ true)
    × (shift_after true 0xB6 ≡ false)
unfolding entered shift_after key_char
keys = (refl, refl, refl, refl, refl)

kbd_buffer_push-edit_example :
    Yields (λ k'. IsValid k' × (typed k' ≡ edit b'x' (typed hi))) (kbd_buffer_push b'x' hi)
kbd_buffer_push-edit_example = kbd_buffer_push-edit b'x' hi hi-IsValid

abbrev shift_down : Keyboard
shift_down = record init { shift_held = true }

-- 'h', 'i' with the release of 'i', a timer interrupt, and the return key.
abbrev wakes : List (List ℕ)
wakes = (0x23 ∷ []) ∷ (0x17 ∷ 0x97 ∷ []) ∷ [] ∷ (0x1C ∷ []) ∷ []

-- "hi" and a newline.
abbrev hi_line : List ℕ
hi_line = b'h' ∷ b'i' ∷ 10 ∷ []

wakes-complete : line_of_keys 2047 false [] [] wakes ≡ some (complete hi_line hi_line)
unfolding line_of_keys keyed shifted entered shift_after key_char edits edit_line is_complete
wakes-complete = refl

kbd_readline-Reads_example :
    Yields
      (Reads 128 [] init fresh (complete hi_line hi_line))
      (kbd_readline (replicate 128 0) 128 wakes init fresh)
kbd_readline-Reads_example =
    kbd_readline-Reads 2047 (replicate 128 0) 128 wakes (complete hi_line hi_line) init fresh
      init-IsValid fresh-IsValid (omega arith) (omega arith) (omega arith) (omega arith)
      (omega arith) wakes-complete

-- The buffer has one byte of room left: the second 'a' starts it anew, and the return key ends the
-- reading, which copies 127 bytes from position 2046.
abbrev nearly_full : Keyboard
nearly_full = record init {
  kbd_buf = record { buf = replicate 2046 b'x' ++ 0 ∷ 0 ∷ []; pos = 2046 };
}

abbrev keys_over : List (List ℕ)
keys_over = (0x1E ∷ []) ∷ (0x1E ∷ []) ∷ (0x1C ∷ []) ∷ []

kbd_readline-Behaves_example : kbd_readline (replicate 128 0) 128 keys_over nearly_full fresh ≡ none
unfolding text_of_keys keyed shifted entered shift_after key_char edit_all edit is_complete
kbd_readline-Behaves_example =
    kbd_readline-Behaves (replicate 128 0) 128 keys_over nearly_full fresh
      (record { size = refl; room = omega arith }) fresh-IsValid (omega arith) (omega arith)
      (omega arith) (omega arith)

-- ===== src/Keyboard.antt =====
-- kernel/keyboard.c and include/kernel/keyboard.h: scancodes, the line buffer and `kbd_readline`.
-- The proofs are in the modules below.
pub mod Edit
pub mod Layout
pub mod Scancode
pub mod Line
pub mod Keys
pub mod Editor
pub mod Readline
pub mod Whole
mod Tests
use feudos.Prelude.{
  ℕ, zero, suc, ◌+◌, ◌-◌, ◌/◌, ◌%◌, ◌^◌, Bool, true, false, not, ◌&&◌, ◌||◌, Option, none, some,
  List, [], ◌∷◌, ◌++◌, ltb, leb, ◌==◌, if◌then◌else◌, get_elem?, drop, replicate, ◌>>=◌, check,
  store,
}
use feudos.Str.{kmemcpy}
use feudos.Vga.{Screen}
use feudos.Printf.{Arg, word, kprintf}

abbrev pub kbd_buf_size : ℕ
kbd_buf_size = 2048

-- `struct kbd_buffer`
pub record KbdBuffer : Type 0 where
  pub buf : List ℕ
  pub pos : ℕ

-- The static variables of keyboard.c.
pub record Keyboard : Type 0 where
  pub kbd_buf : KbdBuffer
  pub shift_held : Bool

abbrev pub init : Keyboard
init = record { kbd_buf = record { buf = replicate kbd_buf_size 0; pos = 0 }; shift_held = false }

-- 8, 9, 10 and 27 are '\b', '\t', '\n' and escape, 39 and 92 the quote and the backslash.
abbrev pub scancode_ascii : List ℕ
scancode_ascii =
    0
    ∷ 27
    ∷ b'1'
    ∷ b'2'
    ∷ b'3'
    ∷ b'4'
    ∷ b'5'
    ∷ b'6'
    ∷ b'7'
    ∷ b'8'
    ∷ b'9'
    ∷ b'0'
    ∷ b'-'
    ∷ b'='
    ∷ 8
    ∷ 9
    ∷ b'q'
    ∷ b'w'
    ∷ b'e'
    ∷ b'r'
    ∷ b't'
    ∷ b'y'
    ∷ b'u'
    ∷ b'i'
    ∷ b'o'
    ∷ b'p'
    ∷ b'['
    ∷ b']'
    ∷ 10
    ∷ 0
    ∷ b'a'
    ∷ b's'
    ∷ b'd'
    ∷ b'f'
    ∷ b'g'
    ∷ b'h'
    ∷ b'j'
    ∷ b'k'
    ∷ b'l'
    ∷ b';'
    ∷ 39
    ∷ b'`'
    ∷ 0
    ∷ 92
    ∷ b'z'
    ∷ b'x'
    ∷ b'c'
    ∷ b'v'
    ∷ b'b'
    ∷ b'n'
    ∷ b'm'
    ∷ b','
    ∷ b'.'
    ∷ b'/'
    ∷ 0
    ∷ b'*'
    ∷ 0
    ∷ b' '
    ∷ 0
    ∷ replicate 69 0

abbrev pub scancode_ascii_shift : List ℕ
scancode_ascii_shift =
    0
    ∷ 27
    ∷ b'!'
    ∷ b'@'
    ∷ b'#'
    ∷ b'$'
    ∷ b'%'
    ∷ b'^'
    ∷ b'&'
    ∷ b'*'
    ∷ b'('
    ∷ b')'
    ∷ b'_'
    ∷ b'+'
    ∷ 8
    ∷ 9
    ∷ b'Q'
    ∷ b'W'
    ∷ b'E'
    ∷ b'R'
    ∷ b'T'
    ∷ b'Y'
    ∷ b'U'
    ∷ b'I'
    ∷ b'O'
    ∷ b'P'
    ∷ b'{'
    ∷ b'}'
    ∷ 10
    ∷ 0
    ∷ b'A'
    ∷ b'S'
    ∷ b'D'
    ∷ b'F'
    ∷ b'G'
    ∷ b'H'
    ∷ b'J'
    ∷ b'K'
    ∷ b'L'
    ∷ b':'
    ∷ b'"'
    ∷ b'~'
    ∷ 0
    ∷ b'|'
    ∷ b'Z'
    ∷ b'X'
    ∷ b'C'
    ∷ b'V'
    ∷ b'B'
    ∷ b'N'
    ∷ b'M'
    ∷ b'<'
    ∷ b'>'
    ∷ b'?'
    ∷ 0
    ∷ b'*'
    ∷ 0
    ∷ b' '
    ∷ 0
    ∷ replicate 69 0

abbrev pub sc_lshift : ℕ
sc_lshift = 0x2A

abbrev pub sc_rshift : ℕ
sc_rshift = 0x36

pub kbd_buf_pop : KbdBuffer → Option (ℕ × KbdBuffer)
kbd_buf_pop k = if k.pos == 0 then some (0, k) else do
  c ← get_elem? k.buf (k.pos - 1)
  buf ← store k.buf (k.pos - 1) 0
  some (c, record { buf = buf; pos = k.pos - 1 })

pub kbd_buffer_push : ℕ → KbdBuffer → Option KbdBuffer
kbd_buffer_push c k = if c == 8 then (do (_, popped) ← kbd_buf_pop k; some popped) else do
  let pos = if k.pos == kbd_buf_size - 1 then 0 else k.pos
  buf ← store k.buf pos c
  some (record { buf = buf; pos = pos + 1 })

-- `shift_held ? scancode_ascii_shift[code] : scancode_ascii[code]`
unfoldable pub scancode_char : Bool → ℕ → Option ℕ
scancode_char shift code = get_elem? (if shift then scancode_ascii_shift else scancode_ascii) code

-- The format "%c".
abbrev pub char_format : List ℕ
char_format = b'%' ∷ b'c' ∷ 0 ∷ []

-- `sc & 0x80` and `sc & 0x7F` of a byte. The test `code < 128` always passes.
unfoldable pub kbd_handle_scancode : ℕ → Keyboard → Screen → Option (Keyboard × Screen)
kbd_handle_scancode sc k s =
    let released = sc / 128 % 2 == 1 in
    let code = sc % 128 in
    if code == sc_lshift || code == sc_rshift
    then some (record k { shift_held = not released }, s)
    else if released
    then some (k, s)
    else if ltb code 128
    then (do
      c ← scancode_char k.shift_held code
      if c == 0 then some (k, s) else (do
        pushed ← kbd_buffer_push c k.kbd_buf
        t ← kprintf char_format (word c ∷ []) s
        some (record k { kbd_buf = pushed }, t)))
    else some (k, s)

-- The interrupts of one `hlt`: the scancodes that the handler takes, none for a timer interrupt.
pub handle_all : List ℕ → Keyboard → Screen → Option (Keyboard × Screen)
handle_all [] k s = some (k, s)
handle_all (sc ∷ rest) k s = do (k', t) ← kbd_handle_scancode sc k s; handle_all rest k' t

-- The test that ends the loop of `kbd_readline`; `&&` reads the buffer last.
pub line_ready : ℕ → KbdBuffer → Option Bool
line_ready start_pos k =
    if not (k.pos == start_pos) && not (k.pos == 0)
    then (do c ← get_elem? k.buf (k.pos - 1); some (c == 10))
    else some false

-- `line_len` of `kbd_readline`: `size_t` subtraction wraps.
pub copied_length : ℕ → ℕ → KbdBuffer → ℕ
copied_length start_pos max k =
    let line_len = (k.pos + 2 ^ 64 - start_pos) % 2 ^ 64 in
    if leb max line_len then (max + 2 ^ 64 - 1) % 2 ^ 64 else line_len

-- The copy of `line_len` bytes and the terminator behind them.
pub copy_bytes : ℕ → List ℕ → ℕ → KbdBuffer → Option (List ℕ)
copy_bytes start_pos dst line_len k = do
  copied ← kmemcpy dst (drop start_pos k.buf) line_len
  store copied line_len 0

-- What `kbd_readline` does once a line is there: the bytes of `dst` and the returned length.
pub copy_line : ℕ → List ℕ → ℕ → KbdBuffer → Option (List ℕ × ℕ)
copy_line start_pos dst max k = do
  let line_len = copied_length start_pos max k
  bytes ← copy_bytes start_pos dst line_len k
  some (bytes, line_len)

-- The outcome of `kbd_readline` on the interrupts that come: it waits on, or has a line.
pub data Reading : Type 0 where
  waiting : Keyboard → Screen → Reading
  line : List ℕ → ℕ → Keyboard → Screen → Reading

-- Each round is one `hlt`, with the scancodes handled before the loop tests the buffer.
unfoldable pub readline_loop : ℕ → List ℕ → ℕ → List (List ℕ) → Keyboard → Screen → Option Reading
readline_loop start_pos dst max [] k s = some (waiting k s)
readline_loop start_pos dst max (scs ∷ wakes) k s = do
  (k', t) ← handle_all scs k s
  ready ← line_ready start_pos k'.kbd_buf
  if ready
      then (do (bytes, n) ← copy_line start_pos dst max k'.kbd_buf; some (line bytes n k' t))
      else readline_loop start_pos dst max wakes k' t

unfoldable pub kbd_readline : List ℕ → ℕ → List (List ℕ) → Keyboard → Screen → Option Reading
kbd_readline dst max wakes k s = readline_loop k.kbd_buf.pos dst max wakes k s

pub kbd_get_buf_ptr : Keyboard → List ℕ
kbd_get_buf_ptr k = k.kbd_buf.buf

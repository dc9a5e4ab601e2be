-- ===== src/Keyboard/Whole.antt =====
-- kernel/keyboard.c, `kbd_readline` on any keys: also those that take back earlier text, or start the
-- buffer anew.
use feudos.Prelude.{
  ℕ, ◌+◌, ◌-◌, ◌^◌, ◌<◌, ◌≤◌, ◌≡◌, ◌∙◌, ap, refl, Bool, not, ◌&&◌, Option, some, none, List, [],
  ◌∷◌, ◌++◌, arith, ◌==◌, leb, if◌then◌else◌, length, take, drop, get_elem?, ◌>>=◌, Bool-cases, inl,
  inr, Yields, Yields-bind,
}
use feudos.Vga.{Screen}
use feudos.Vga.Valid
use feudos.Keyboard.{
  Keyboard, KbdBuffer, kbd_buf_size, Reading, waiting, line, line_ready, copy_line, readline_loop,
  kbd_readline,
}
use feudos.Keyboard.Edit.{IsValid, typed}
use feudos.Keyboard.Scancode.{Entered, Entered-nil, edit_all}
use feudos.Keyboard.Keys.{keyed, shifted, Entered-append, Entered-same, handle_all-keyed}
use feudos.Keyboard.Editor.{is_complete}
use feudos.Keyboard.Line.{copy_line-Copied, copy_line_wraps, copy_line_stale}
use feudos.Keyboard.Readline.{
  Typed, pending, complete, Holds, AllBytes, line_ready-is_complete, length-typed,
}

-- The reading ends once the whole text ends in a newline and has another length than at its start.
abbrev pub ends : ℕ → List ℕ → Bool
ends start xs = not (length xs == start) && is_complete xs

-- The characters and the whole text at the end of the reading, or so far.
unfoldable pub text_of_keys : ℕ → Bool → List ℕ → List ℕ → List (List ℕ) → Typed
text_of_keys start shift cs xs [] = pending cs xs
text_of_keys start shift cs xs (scs ∷ wakes) =
    let all = cs ++ keyed shift scs in
    let text = edit_all (keyed shift scs) xs in
    let rest = text_of_keys start (shifted shift scs) all text wakes in
    if ends start text then complete all text else rest

line_ready-ends :
    (start : ℕ) (k : KbdBuffer) → IsValid k → line_ready start k ≡ some (ends start (typed k))
unfolding line_ready
line_ready-ends start k v =
    let whole = line_ready-is_complete [] (typed k) k v refl in
    rw (length-typed k v) (elim (Bool-cases (k.pos == start)) [
      | inl e ↦ rw e refl
      | inr e ↦ rw e (elim (Bool-cases (k.pos == 0)) [
        | inl z ↦ rw z (rw z at whole)
        | inr z ↦ rw z (rw z at whole)
      ])
    ])

-- What is returned for a whole text that is not shorter than at the start: its line, cut to `max - 1`
-- bytes.
abbrev pub Line : ℕ → ℕ → List ℕ → List ℕ → ℕ → Type 0
Line start max xs bytes n = Holds max (drop start xs) bytes n

-- What is returned for a shorter text: the `max - 1` bytes behind the start, whatever they are.
abbrev pub Stale : ℕ → ℕ → KbdBuffer → List ℕ → ℕ → Type 0
Stale start max k bytes n =
    (n ≡ max - 1) × (take n bytes ≡ take n (drop start k.buf)) × (get_elem? bytes n ≡ some 0)

-- The reading has returned, after the characters `cs`.
abbrev pub Returned :
    (KbdBuffer → List ℕ → ℕ → Type 0) → List ℕ → Keyboard → Screen → Reading → Type 0
Returned P cs k s r =
    (k' : Keyboard) × (t : Screen) × (bytes : List ℕ) × (n : ℕ) × (r ≡ line bytes n k' t)
    × Entered cs k s k' t
    × P k'.kbd_buf bytes n

-- A text that has ended the reading.
abbrev pub Ended : ℕ → ℕ → List ℕ → List ℕ → Keyboard → Screen → Option Reading → Type 0
Ended start max cs xs k s m =
    if leb start (length xs)
    then Yields (Returned (λ _. Line start max xs) cs k s) m
    else if leb (start + (max - 1)) kbd_buf_size
    then Yields (Returned (Stale start max) cs k s) m
    else m ≡ none

abbrev pub Behaves : ℕ → ℕ → Keyboard → Screen → Typed → Option Reading → Type 0
Behaves start max k s (pending cs xs) m =
    Yields (λ r. (k' : Keyboard) × (t : Screen) × (r ≡ waiting k' t) × Entered cs k s k' t) m
Behaves start max k s (complete cs xs) m = Ended start max cs xs k s m

module _ (start : ℕ) (dst : List ℕ) (max : ℕ) (hs : start < kbd_buf_size) (h0 : 0 < max)
    (hd : max ≤ length dst) (hm : max ≤ 2 ^ 63) (k0 : Keyboard) (s0 : Screen) where
  copy-Ended :
      (cs : List ℕ) (k : Keyboard) (s : Screen)
      → Entered cs k0 s0 k s
      → Ended start max cs
          (typed k.kbd_buf)
          k0
          s0
          (do (bytes, n) ← copy_line start dst max k.kbd_buf; some (line bytes n k s))
  copy-Ended cs k s e =
      let same = length-typed k.kbd_buf e.valid in
      rw same (elim (Bool-cases (leb start k.kbd_buf.pos)) [
        | inl above ↦ rw above (
            Yields-bind _ _
              (copy_line-Copied start max dst k.kbd_buf e.valid (ground arith) h0 hd (omega arith))
              λ (bytes, n) c. (_, refl, (k, s, bytes, n, refl, e, (c.count, c.bytes, c.ended))))
        | inr below ↦ rw below (elim (Bool-cases (leb (start + (max - 1)) kbd_buf_size)) [
          | inl fits ↦ rw fits (
              Yields-bind _ _
                (copy_line_stale start max dst k.kbd_buf e.valid (ground arith) hs h0 hd hm
                  (ground arith))
                λ (bytes, n) c. (_, refl, (k, s, bytes, n, refl, e, c)))
          | inr past ↦
              rw
                (
                  past,
                  copy_line_wraps start max dst k.kbd_buf e.valid (ground arith) hs h0 hm
                      (ground arith),
                )
                refl
        ])
      ])

  readline_loop-Behaves :
      (shift : Bool) (cs xs : List ℕ) (wakes : List (List ℕ)) (k : Keyboard) (s : Screen)
      → k.shift_held ≡ shift
      → AllBytes wakes
      → typed k.kbd_buf ≡ xs
      → Entered cs k0 s0 k s
      → Behaves start max k0 s0
          (text_of_keys start shift cs xs wakes)
          (readline_loop start dst max wakes k s)
  unfolding readline_loop text_of_keys
  readline_loop-Behaves shift cs xs [] k s sh b text e = (_, refl, (k, s, refl, e))
  readline_loop-Behaves shift cs xs (scs ∷ wakes) k s sh (hb, b) text e =
      let ks = keyed shift scs in
      let ((k', t), eh, (e1, h1)) = handle_all-keyed scs k s hb e.valid e.screen.valid in
      let e' : Entered (cs ++ ks) k0 s0 k' t =
        Entered-append e (Entered-same _ _ k s k' t (ap (λ b. keyed b scs) sh) e1) in
      let text' : typed k'.kbd_buf ≡ edit_all ks xs =
        e1.text ∙ ap (λ b. edit_all (keyed b scs) (typed k.kbd_buf)) sh ∙ ap (edit_all ks) text in
      rw (eh, line_ready-ends start k'.kbd_buf e1.valid, text')
        (elim (Bool-cases (ends start (edit_all ks xs))) [
          | inl y ↦ rw y (rw text' at (copy-Ended (cs ++ ks) k' t e'))
          | inr y ↦ rw y (
              readline_loop-Behaves (shifted shift scs) (cs ++ ks) (edit_all ks xs) wakes k' t
                (h1 ∙ ap (λ b. shifted b scs) sh) b text' e')
        ])

-- On a valid buffer and screen and any scancode bytes, `kbd_readline` into an array of at least `max`
-- bytes waits on, or returns at the first `hlt` after which the whole text ends in a newline and has
-- another length than at the start. Where the text is not shorter than at the start, it returns the
-- line behind it, cut to `max - 1` bytes, with a NUL. Where the text is shorter, it returns the `max - 1`
-- bytes that the buffer holds behind the start, and it faults exactly where these reach past the end of
-- the buffer. The characters are in the buffer and on the screen.
pub kbd_readline-Behaves :
    (dst : List ℕ) (max : ℕ) (wakes : List (List ℕ)) (k : Keyboard) (s : Screen)
    → IsValid k.kbd_buf
    → Valid.IsValid s
    → AllBytes wakes
    → 0 < max
    → max ≤ length dst
    → max ≤ 2 ^ 63
    → Behaves k.kbd_buf.pos max k s
        (text_of_keys k.kbd_buf.pos k.shift_held [] (typed k.kbd_buf) wakes)
        (kbd_readline dst max wakes k s)
unfolding kbd_readline
kbd_readline-Behaves dst max wakes k s v vs b h0 hd hm =
    readline_loop-Behaves k.kbd_buf.pos dst max v.room h0 hd hm k s k.shift_held []
      (typed k.kbd_buf) wakes k s refl b refl (Entered-nil k s k.shift_held v vs)

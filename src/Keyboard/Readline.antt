-- ===== src/Keyboard/Readline.antt =====
-- kernel/keyboard.c, `kbd_readline`: from the keys typed to the line that is returned.
use Prim.Native.Nat.{min}
use feudos.Prelude.{
  ℕ, zero, suc, ◌+◌, ◌-◌, ◌^◌, ◌<◌, ◌≤◌, ◌≡◌, ◌∙◌, ap, refl, sym, Bool, true, false, Option, some,
  List, [], ◌∷◌, ◌++◌, arith, ◌==◌, if◌then◌else◌, length, length-append, get_elem?, take, drop,
  length-take, ◌>>=◌, bind-eq-some, Bool-cases, inl, inr, Yields, Yields-bind, Yields-mono,
  append-nil,
}
use feudos.Vga.{Screen}
use feudos.Vga.Valid
use feudos.Keyboard.{
  Keyboard, KbdBuffer, kbd_buf_size, Reading, waiting, line, line_ready, copy_line, readline_loop,
  kbd_readline,
}
use feudos.Keyboard.Edit.{IsValid, typed}
use feudos.Keyboard.Scancode.{Entered, Entered-nil, edit_all}
use feudos.Keyboard.Keys.{Bytes, keyed, shifted, Entered-append, Entered-same, handle_all-keyed}
use feudos.Keyboard.Editor.{edits, is_complete, edit_all-edits}
use feudos.Keyboard.Line.{copy_line-Copied, line_of}

-- What was typed: the characters, and the line that they make, still open or ended by a newline.
pub data Typed : Type 0 where
  pending complete : List ℕ → List ℕ → Typed

-- The line editor on the scancodes of each `hlt`, from the shift state, the characters and the line
-- so far. It looks for the newline at the end of the line after each `hlt`.
unfoldable pub line_of_keys : ℕ → Bool → List ℕ → List ℕ → List (List ℕ) → Option Typed
line_of_keys room shift cs ln [] = some (pending cs ln)
line_of_keys room shift cs ln (scs ∷ wakes) = do
  let all = cs ++ keyed shift scs
  ln' ← edits room (keyed shift scs) ln
  if is_complete ln'
      then some (complete all ln')
      else line_of_keys room (shifted shift scs) all ln' wakes

get_elem?-take : (xs : List ℕ) (n i : ℕ) → i < n → get_elem? (take n xs) i ≡ get_elem? xs i
get_elem?-take xs zero i h = absurd (omega arith)
get_elem?-take [] (suc n) i h = refl
get_elem?-take (x ∷ xs) (suc n) zero h = refl
get_elem?-take (x ∷ xs) (suc n) (suc i) h = get_elem?-take xs n i (omega arith)

get_elem?-append : (xs ys : List ℕ) (i : ℕ) → get_elem? (xs ++ ys) (length xs + i) ≡ get_elem? ys i
get_elem?-append [] ys i = ap (get_elem? ys) (omega arith)
get_elem?-append (x ∷ xs) ys i =
    ap (get_elem? (x ∷ (xs ++ ys))) {y = suc (length xs + i)} (omega arith)
    ∙ get_elem?-append xs ys i

is_complete-last :
    (x : ℕ) (xs : List ℕ)
    → (c : ℕ) × (get_elem? (x ∷ xs) (length xs) ≡ some c) × (is_complete (x ∷ xs) ≡ (c == 10))
unfolding is_complete
is_complete-last x [] = (x, refl, refl)
is_complete-last x (y ∷ xs) = is_complete-last y xs

pub length-typed : (k : KbdBuffer) → IsValid k → length (typed k) ≡ k.pos
length-typed k v = omega (arith, length-take k.pos k.buf, v.size, v.room)

pos-typed :
    (base ln : List ℕ) (k : KbdBuffer)
    → IsValid k
    → typed k ≡ base ++ ln
    → k.pos ≡ length base + length ln
pos-typed base ln k v e = sym (length-typed k v) ∙ ap (length {A = ℕ}) e ∙ length-append base ln

drop-append : (xs ys : List ℕ) → drop (length xs) (xs ++ ys) ≡ ys
drop-append [] ys = refl
drop-append (x ∷ xs) ys = drop-append xs ys

-- The test that ends the loop looks at the line alone.
pub line_ready-is_complete :
    (base ln : List ℕ) (k : KbdBuffer)
    → IsValid k
    → typed k ≡ base ++ ln
    → line_ready (length base) k ≡ some (is_complete ln)
unfolding line_ready is_complete
line_ready-is_complete base [] k v e =
    let same : k.pos ≡ length base = omega (arith, pos-typed base [] k v e) in
    let eq : k.pos == length base ≡ true = ground arith in rw eq refl
line_ready-is_complete base (x ∷ xs) k v e =
    let here = pos-typed base (x ∷ xs) k v e in
    let ne : k.pos == length base ≡ false = ground arith in
    let nz : k.pos == 0 ≡ false = ground arith in
    let (c, ec, last) = is_complete-last x xs in
    let read : get_elem? k.buf (k.pos - 1) ≡ some c =
      sym (get_elem?-take k.buf k.pos (k.pos - 1) (omega arith))
      ∙ ap (λ r. get_elem? r (k.pos - 1)) e
      ∙ ap (get_elem? (base ++ x ∷ xs)) (omega arith)
      ∙ get_elem?-append base (x ∷ xs) (length xs)
      ∙ ec in
    rw (ne, nz, read, last) refl

-- The keyboard and the screen after the characters `cs` behind `base`, which make the line `ln`.
abbrev pub After : List ℕ → Keyboard → Screen → List ℕ → List ℕ → Keyboard → Screen → Type 0
After base k s cs ln k' t = Entered cs k s k' t × (typed k'.kbd_buf ≡ base ++ ln)

-- A line of at most `max - 1` bytes with its terminator, cut where it is longer.
abbrev pub Holds : ℕ → List ℕ → List ℕ → ℕ → Type 0
Holds max ln bytes n =
    (n ≡ min (length ln) (max - 1)) × (take n bytes ≡ take n ln) × (get_elem? bytes n ≡ some 0)

-- What `kbd_readline` does with what was typed.
abbrev pub Reads : ℕ → List ℕ → Keyboard → Screen → Typed → Reading → Type 0
Reads max base k s (pending cs ln) r =
    (k' : Keyboard) × (t : Screen) × (r ≡ waiting k' t) × After base k s cs ln k' t
Reads max base k s (complete cs ln) r =
    (k' : Keyboard) × (t : Screen) × (bytes : List ℕ) × (n : ℕ) × (r ≡ line bytes n k' t)
    × After base k s cs ln k' t
    × Holds max ln bytes n

copy_line-Holds :
    (base ln dst : List ℕ) (max : ℕ) (k : KbdBuffer)
    → IsValid k
    → typed k ≡ base ++ ln
    → 0 < max
    → max ≤ length dst
    → max < 2 ^ 64
    → Yields (λ (bytes, n). Holds max ln bytes n) (copy_line (length base) dst max k)
copy_line-Holds base ln dst max k v e h0 hd hm =
    let same : line_of (length base) k ≡ ln = ap (drop (length base)) e ∙ drop-append base ln in
    Yields-mono _
      (copy_line-Copied (length base) max dst k v (omega (arith, pos-typed base ln k v e)) h0 hd hm)
      λ (bytes, n) c. (
        c.count ∙ ap (λ (l : List ℕ). min (length l) (max - 1)) same,
        c.bytes ∙ ap (take n) same,
        c.ended,
      )

-- The bytes of each `hlt`.
abbrev pub AllBytes : List (List ℕ) → Type 0
AllBytes [] = Unit
AllBytes (scs ∷ wakes) = Bytes scs × AllBytes wakes

module _ (base : List ℕ) (room : ℕ) (whole : length base + room ≡ kbd_buf_size - 1) (dst : List ℕ)
    (max : ℕ) (h0 : 0 < max) (hd : max ≤ length dst) (hm : max < 2 ^ 64) (k0 : Keyboard)
    (s0 : Screen) where
  -- What one `hlt` adds.
  After-hlt :
      (cs ds ln ln' : List ℕ) (k : Keyboard) (s : Screen) (k' : Keyboard) (t : Screen)
      → After base k0 s0 cs ln k s
      → edits room ds ln ≡ some ln'
      → Entered ds k s k' t
      → After base k0 s0 (cs ++ ds) ln' k' t
  After-hlt cs ds ln ln' k s k' t (e, same) ed e' = (
    Entered-append e e',
    e'.text ∙ ap (edit_all ds) same ∙ edit_all-edits base room whole ds ln ln' ed,
  )

  readline_loop-Reads :
      (shift : Bool) (cs ln : List ℕ) (wakes : List (List ℕ)) (o : Typed) (k : Keyboard)
      (s : Screen)
      → k.shift_held ≡ shift
      → AllBytes wakes
      → line_of_keys room shift cs ln wakes ≡ some o
      → After base k0 s0 cs ln k s
      → Yields (Reads max base k0 s0 o) (readline_loop (length base) dst max wakes k s)
  unfolding readline_loop line_of_keys
  readline_loop-Reads shift cs ln [] o k s sh b eo a =
      let f : pending cs ln ≡ o = cc eo in (_, refl, rw (← f) (k, s, refl, a))
  readline_loop-Reads shift cs ln (scs ∷ wakes) o k s sh (hb, b) eo (e, same) =
      let all = cs ++ keyed shift scs in
      let (ln', el, eo') = bind-eq-some (edits room (keyed shift scs) ln) _ eo in
      Yields-bind _ _ (handle_all-keyed scs k s hb e.valid e.screen.valid) λ (k', t) (e', h').
        let a : After base k0 s0 all ln' k' t =
          After-hlt cs (keyed shift scs) ln ln' k s k' t (e, same) el
            (Entered-same _ _ k s k' t (ap (λ b. keyed b scs) sh) e') in
        rw (line_ready-is_complete base ln' k'.kbd_buf a.0.valid a.1)
          (elim (Bool-cases (is_complete ln')) [
            | inl y ↦ rw y (
                Yields-bind _ _ (copy_line-Holds base ln' dst max k'.kbd_buf a.0.valid a.1 h0 hd hm)
                  λ (bytes, n) held.
                    let f : complete all ln' ≡ o = cc (rw y at eo') in
                    (_, refl, rw (← f) (k', t, bytes, n, refl, a, held)))
            | inr y ↦ rw y (
                readline_loop-Reads (shifted shift scs) all ln' wakes o k' t
                  (h' ∙ ap (λ b. shifted b scs) sh) b (rw y at eo') a)
          ])

-- On a valid buffer and screen, while what is typed neither takes back earlier text nor fills the
-- buffer, `kbd_readline` does not fault, and reads what the line editor does of the keys: it returns
-- at the first `hlt` after which the typed line ends in a newline, with the line, cut to `max - 1`
-- bytes, and a NUL behind it, and waits on until then. The typed characters are in the buffer behind
-- the earlier text and on the screen.
pub kbd_readline-Reads :
    (room : ℕ) (dst : List ℕ) (max : ℕ) (wakes : List (List ℕ)) (o : Typed) (k : Keyboard)
    (s : Screen)
    → IsValid k.kbd_buf
    → Valid.IsValid s
    → AllBytes wakes
    → 0 < max
    → max ≤ length dst
    → max < 2 ^ 64
    → k.kbd_buf.pos + room ≡ kbd_buf_size - 1
    → line_of_keys room k.shift_held [] [] wakes ≡ some o
    → Yields (Reads max (typed k.kbd_buf) k s o) (kbd_readline dst max wakes k s)
unfolding kbd_readline
kbd_readline-Reads room dst max wakes o k s v vs b h0 hd hm whole e =
    let base = typed k.kbd_buf in
    let start : k.kbd_buf.pos ≡ length base = sym (length-typed k.kbd_buf v) in
    let a : After base k s [] [] k s = (Entered-nil k s k.shift_held v vs, sym (append-nil base)) in
    let run =
      readline_loop-Reads base room (omega (arith, start, whole)) dst max h0 hd hm k s k.shift_held
        [] [] wakes o k s refl b e a in
    let loop = ap (λ p. readline_loop p dst max wakes k s) start in rw loop run

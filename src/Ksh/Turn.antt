-- ===== src/Ksh/Turn.antt =====
-- kernel/ksh/ksh.c, the loop of `ksh_run`: a round that reads a line, whatever the line says.
use mathlib.Core.List.{append_assoc}
use feudos.Prelude.{
  ℕ, ◌+◌, ◌-◌, ◌%◌, ◌^◌, ◌<◌, ◌≡◌, ◌∙◌, ap, refl, sym, some, List, [], ◌∷◌, ◌++◌, arith, length,
  length-append, take, drop, take-append-drop, store, Yields,
}
use feudos.Str.{c_string}
use feudos.Str.Scan.{NulAt}
use feudos.Vga.{Screen}
use feudos.Vga.Valid.{IsValid}
use feudos.Vga.Text.{put_text}
use feudos.Printf.{kprintf}
use feudos.Printf.Format.{replay, format, directive_events}
use feudos.Printf.Prints.{Prints, Prints-kprintf, literal}
use feudos.Keyboard.{Keyboard, kbd_buf_size}
use feudos.Keyboard.Edit
use feudos.Keyboard.Edit.{typed}
use feudos.Keyboard.Readline.{AllBytes, Holds, complete, line_of_keys, kbd_readline-Reads}
use feudos.Ksh.{Cpuid, Ended, Round, ran, line_size, ksh_line, ksh_round, ksh_exec}
use feudos.Ksh.Exec.{store_end}
use feudos.Ksh.Outcome.{Described, Leaves}
use feudos.Ksh.Safe.{ksh_exec-IsValid}

take-length : (xs : List ℕ) → take (length xs) xs ≡ xs
take-length [] = refl
take-length (x ∷ xs) = ap (λ r. x ∷ r) (take-length xs)

NulAt-end : (xs r : List ℕ) → NulAt (length xs) (xs ++ 0 ∷ r)
NulAt-end [] r = refl
NulAt-end (x ∷ xs) r = NulAt-end xs r

-- The line that `kbd_readline` has put into the buffer, with its newline overwritten.
cut_line :
    (ln bytes : List ℕ) (n : ℕ)
    → length ln + 1 < line_size
    → Holds line_size (ln ++ 10 ∷ []) bytes n
    → (r : List ℕ) × (store bytes ((n + 2 ^ 64 - 1) % 2 ^ 64) 0 ≡ some (ln ++ 0 ∷ r))
cut_line ln bytes n small (count, same, ended) =
    let len : length (ln ++ 10 ∷ []) ≡ length ln + 1 = length-append ln (10 ∷ []) in
    let en : n ≡ length ln + 1 = omega (arith, count, len) in
    let index : (n + 2 ^ 64 - 1) % 2 ^ 64 ≡ length ln = omega (arith, en) in
    let whole : take n (ln ++ 10 ∷ []) ≡ ln ++ 10 ∷ [] =
      ap (λ i. take i (ln ++ 10 ∷ [])) (en ∙ sym len) ∙ take-length (ln ++ 10 ∷ []) in
    let split : bytes ≡ ln ++ 10 ∷ drop n bytes =
      sym (take-append-drop n bytes)
      ∙ ap (λ l. l ++ drop n bytes) (same ∙ whole)
      ∙ append_assoc ln (10 ∷ []) (drop n bytes) in
    (
      drop n bytes,
      ap (λ l. store l ((n + 2 ^ 64 - 1) % 2 ^ 64) 0) split
          ∙ ap (λ i. store (ln ++ 10 ∷ drop n bytes) i 0) index
          ∙ store_end ln 10 (drop n bytes),
    )

prompt-Prints : Prints (kprintf (c_string "ksh> ") []) (literal "ksh> ")
unfolding format directive_events
prompt-Prints = Prints-kprintf _ _ _ refl

-- A round that reads the line `ln`, by the typed characters `cs`: after the prompt the screen shows
-- what was typed, and the shell executes the line on it.
pub record Turned (id : Cpuid) (ticks : ℕ) (ln cs : List ℕ) (k : Keyboard) (s : Screen) (r : Round)
    : Type 0 where
  pub prompted : Screen
  pub shown : Screen
  pub keyboard : Keyboard
  pub behind_line : List ℕ
  pub end : Ended
  pub prompt : replay (literal "ksh> ") s ≡ some prompted
  pub echo : put_text prompted.text_color cs prompted ≡ some shown
  pub ready : IsValid shown
  pub buffer : Edit.IsValid keyboard.kbd_buf
  pub text : typed keyboard.kbd_buf ≡ typed k.kbd_buf ++ (ln ++ 10 ∷ [])
  pub runs : ksh_exec id ticks (ln ++ 0 ∷ behind_line) shown ≡ some end
  pub valid : Leaves IsValid end
  pub outcome : r ≡ ran (ln ++ 0 ∷ behind_line) keyboard end

module _ (id : Cpuid) (vendor brand : List ℕ) (ticks : ℕ) (described : Described id vendor brand)
    (small : ticks < 2 ^ 64) where
  pub ksh_round-Turned :
      (ln cs : List ℕ) (room : ℕ) (buffer : List ℕ) (wakes : List (List ℕ)) (k : Keyboard)
      (s : Screen)
      → Edit.IsValid k.kbd_buf
      → IsValid s
      → length ln < 127
      → length buffer ≡ line_size
      → AllBytes wakes
      → k.kbd_buf.pos + room ≡ kbd_buf_size - 1
      → line_of_keys room k.shift_held [] [] wakes ≡ some (complete cs (ln ++ 10 ∷ []))
      → Yields (Turned id ticks ln cs k s) (ksh_round id ticks buffer wakes k s)
  unfolding ksh_round ksh_line
  ksh_round-Turned ln cs room buffer wakes k s vk vs fits hb b hr typed_it =
      let (shows, (t, et, vt)) = prompt-Prints s vs in
      let (r, er, (k', u, bytes, n, eq, (entry, same), held)) =
        kbd_readline-Reads room buffer line_size wakes _ k t vk vt b (omega arith)
          (omega (arith, hb)) (omega arith) hr typed_it in
      let (rest, ec) = cut_line ln bytes n (omega (arith, fits)) held in
      let (e, ee, ve) =
        ksh_exec-IsValid id vendor brand ticks u described small entry.screen.valid (ln ++ 0 ∷ rest)
          (length ln) (NulAt-end ln rest) in
      rw (et, er, eq, ec, ee)
        (
          _,
          refl,
          record {
            prompted = t;
            shown = u;
            keyboard = k';
            behind_line = rest;
            end = e;
            prompt = sym shows ∙ et;
            echo = entry.echo;
            ready = entry.screen.valid;
            buffer = entry.valid;
            text = same;
            runs = ee;
            valid = ve;
            outcome = refl;
          },
        )

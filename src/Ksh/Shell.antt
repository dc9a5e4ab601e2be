-- ===== src/Ksh/Shell.antt =====
-- kernel/ksh/ksh.c, the loop of `ksh_run`: from the keys typed to the command that runs.
use mathlib.Core.List.{append_assoc}
use feudos.Prelude.{
  ℕ, ◌+◌, ◌-◌, ◌^◌, ◌<◌, ◌≡◌, ◌∙◌, ap, sym, some, List, [], ◌∷◌, ◌++◌, length, Yields-mono,
  replicate, Yields,
}
use feudos.Str.{Lacks}
use feudos.Str.Compare.{c_text}
use feudos.Vga.{Screen}
use feudos.Vga.Valid.{IsValid}
use feudos.Vga.Text.{put_text}
use feudos.Printf.Format.{replay}
use feudos.Printf.Prints.{literal}
use feudos.Keyboard.{Keyboard, kbd_buf_size}
use feudos.Keyboard.Edit
use feudos.Keyboard.Edit.{typed}
use feudos.Keyboard.Readline.{AllBytes, complete, line_of_keys}
use feudos.Ksh.{Cpuid, Ended, Round, ran, line_size, ksh_round, ksh_exec}
use feudos.Ksh.Exec.{names, find, dispatch, Starts, ksh_exec-dispatch}
use feudos.Ksh.Outcome.{Described, Leaves}
use feudos.Ksh.Turn.{ksh_round-Turned}

-- A command as it is typed: the name, j spaces, and the arguments.
abbrev pub command : List ℕ → ℕ → List ℕ → List ℕ
command name j args = name ++ (replicate j 32 ++ args)

-- A round that reads a command: after the prompt the screen shows what was typed, and the command
-- runs on it.
pub record Runs (id : Cpuid) (ticks : ℕ) (name args cs : List ℕ) (k : Keyboard) (s : Screen)
    (r : Round) : Type 0 where
  pub prompted : Screen
  pub shown : Screen
  pub keyboard : Keyboard
  pub line_bytes : List ℕ
  pub arguments : List ℕ
  pub end : Ended
  pub prompt : replay (literal "ksh> ") s ≡ some prompted
  pub echo : put_text prompted.text_color cs prompted ≡ some shown
  pub buffer : Edit.IsValid keyboard.kbd_buf
  pub reads : c_text arguments ≡ some args
  pub runs : dispatch id ticks (find name names) name arguments shown ≡ some end
  pub valid : Leaves IsValid end
  pub outcome : r ≡ ran line_bytes keyboard end

module _ (id : Cpuid) (vendor brand : List ℕ) (ticks : ℕ) (described : Described id vendor brand)
    (small : ticks < 2 ^ 64) where
  exec-dispatched :
      (name args : List ℕ) (j : ℕ) (r : List ℕ) (t : Screen) (e : Ended)
      → IsValid t
      → Lacks 0 name
      → Lacks 32 name
      → 0 < length name
      → Lacks 0 args
      → Starts args
      → (j ≡ 0 → args ≡ [])
      → ksh_exec id ticks (command name j args ++ 0 ∷ r) t ≡ some e
      → (a : List ℕ) × (c_text a ≡ some args)
        × (dispatch id ticks (find name names) name a t ≡ some e)
  exec-dispatched name args j r t e v h0 h32 hn ha hs hj run =
      let (a, ea, same_run) = ksh_exec-dispatch id ticks t v name h0 h32 hn j args r ha hs hj in
      let same : command name j args ++ 0 ∷ r ≡ name ++ (replicate j 32 ++ (args ++ 0 ∷ r)) =
        append_assoc name _ _ ∙ ap (λ l. name ++ l) (append_assoc _ args _) in
      (a, ea, sym same_run ∙ ap (λ l. ksh_exec id ticks l t) (sym same) ∙ run)

  -- On a valid screen and buffer, with a 64-bit counter and a processor that describes itself in
  -- terminated texts: where the keys typed make a line of at most 126 bytes and a newline, a name of
  -- a command's form, spaces and arguments, and neither take back earlier text nor fill the
  -- buffer, the round of the shell ends without a fault. It has shown the prompt and the typed
  -- characters, and the handler that the table names for the command, or the report of an unknown
  -- one, has run on exactly these arguments and left a valid screen; the buffer is valid too.
  pub ksh_round-Runs :
      (name args cs : List ℕ) (j room : ℕ) (buffer : List ℕ) (wakes : List (List ℕ)) (k : Keyboard)
      (s : Screen)
      → Edit.IsValid k.kbd_buf
      → IsValid s
      → Lacks 0 name
      → Lacks 32 name
      → 0 < length name
      → Lacks 0 args
      → Starts args
      → (j ≡ 0 → args ≡ [])
      → length (command name j args) < 127
      → length buffer ≡ line_size
      → AllBytes wakes
      → k.kbd_buf.pos + room ≡ kbd_buf_size - 1
      → line_of_keys room k.shift_held [] [] wakes
        ≡ some (complete cs (command name j args ++ 10 ∷ []))
      → Yields (Runs id ticks name args cs k s) (ksh_round id ticks buffer wakes k s)
  ksh_round-Runs name args cs j room buffer wakes k s vk vs h0 h32 hn ha hs hj fits hb b hr
        typed_it =
      Yields-mono (ksh_round id ticks buffer wakes k s)
        (ksh_round-Turned id vendor brand ticks described small (command name j args) cs room buffer
          wakes k s vk vs fits hb b hr typed_it)
        λ r d.
          let (a, ea, found) =
            exec-dispatched name args j d.behind_line d.shown d.end d.ready h0 h32 hn ha hs hj
              d.runs in
          record {
            prompted = d.prompted;
            shown = d.shown;
            keyboard = d.keyboard;
            line_bytes = command name j args ++ 0 ∷ d.behind_line;
            arguments = a;
            end = d.end;
            prompt = d.prompt;
            echo = d.echo;
            buffer = d.buffer;
            reads = ea;
            runs = found;
            valid = d.valid;
            outcome = d.outcome;
          }

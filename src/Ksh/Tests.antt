-- ===== src/Ksh/Tests.antt =====
-- Runs of the shell, and the theorems on it at concrete lines.
use feudos.Prelude.{ℕ, false, ◌≡◌, refl, some, none, List, [], ◌∷◌, ◌++◌, replicate, arith, Yields}
use feudos.Str.{codes, c_string}
use feudos.Str.Compare.{c_text}
use feudos.Vga.Sample.{fresh, fresh-IsValid}
use feudos.Vga.Valid.{IsValid}
use feudos.Ksh.{echo, panic, call, ksh_exec, ksh_round}
use feudos.Ksh.Exec.{names, find, dispatch, ksh_exec-dispatch}
use feudos.Ksh.Outcome.{Outcome, Leaves, call-Outcome}
use feudos.Ksh.Sample.{intel, intel-Described}
use feudos.Ksh.Shell.{Runs, ksh_round-Runs}
use feudos.Keyboard
use feudos.Keyboard.Layout.{key_char}
use feudos.Keyboard.Scancode.{entered, shift_after}
use feudos.Keyboard.Keys.{keyed, shifted}
use feudos.Keyboard.Editor.{edits, edit_line, is_complete}
use feudos.Keyboard.Readline.{complete, line_of_keys}
use feudos.Ksh.Safe.{ksh_exec-IsValid}

-- "echo  hi", with a byte behind the terminator.
abbrev echo_hi : List ℕ
echo_hi = codes "echo" ++ (replicate 2 32 ++ (codes "hi" ++ 0 ∷ 7 ∷ []))

found : (find (codes "echo") names ≡ some echo) × (find (codes "ls") names ≡ none)
found = (refl, refl)

ksh_exec-dispatch_example :
    (a : List ℕ) × (c_text a ≡ some (codes "hi"))
    × (ksh_exec intel 40 echo_hi fresh
        ≡ dispatch intel 40 (find (codes "echo") names) (codes "echo") a fresh)
ksh_exec-dispatch_example =
    ksh_exec-dispatch intel 40 fresh fresh-IsValid (codes "echo") (omega arith) (omega arith)
      (omega arith) 2 (codes "hi") (7 ∷ []) (omega arith) (omega arith) (λ e. cc e)

call-Outcome_example :
    Outcome intel
      (codes "GenuineIntel")
      (codes "CPU")
      40
      panic
      (codes "hi")
      fresh
      (call intel 40 panic (c_string "hi") fresh)
unfolding c_text
call-Outcome_example =
    call-Outcome intel (codes "GenuineIntel") (codes "CPU") 40 panic (c_string "hi") (codes "hi")
      fresh intel-Described (omega arith) refl fresh-IsValid

-- A line that starts with a separator.
ksh_exec-IsValid_example : Yields (Leaves IsValid) (ksh_exec intel 40 (c_string " echo hi") fresh)
ksh_exec-IsValid_example =
    ksh_exec-IsValid intel (codes "GenuineIntel") (codes "CPU") 40 fresh intel-Described
      (omega arith) fresh-IsValid (c_string " echo hi") 8 refl

-- The keys of "echo hi" and the return key, with a release and a timer interrupt between.
abbrev echo_keys : List (List ℕ)
echo_keys =
    (0x12 ∷ [])
    ∷ (0x92 ∷ 0x2E ∷ [])
    ∷ (0x23 ∷ [])
    ∷ []
    ∷ (0x18 ∷ 0x39 ∷ [])
    ∷ (0x23 ∷ [])
    ∷ (0x17 ∷ [])
    ∷ (0x1C ∷ [])
    ∷ []

abbrev echo_line : List ℕ
echo_line = codes "echo hi" ++ 10 ∷ []

echo_keys-complete : line_of_keys 2047 false [] [] echo_keys ≡ some (complete echo_line echo_line)
unfolding line_of_keys keyed shifted entered shift_after key_char edits edit_line is_complete
echo_keys-complete = refl

ksh_round-Runs_example :
    Yields
      (Runs intel 40 (codes "echo") (codes "hi") echo_line Keyboard.init fresh)
      (ksh_round intel 40 (replicate 128 0) echo_keys Keyboard.init fresh)
ksh_round-Runs_example =
    ksh_round-Runs intel (codes "GenuineIntel") (codes "CPU") 40 intel-Described (omega arith)
      (codes "echo") (codes "hi") echo_line 1 2047 (replicate 128 0) echo_keys Keyboard.init fresh
      (record { size = refl; room = omega arith }) fresh-IsValid (omega arith) (omega arith)
      (omega arith) (omega arith) (omega arith) (λ e. cc e) (omega arith) refl (omega arith)
      (omega arith) echo_keys-complete

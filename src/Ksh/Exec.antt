-- ===== src/Ksh/Exec.antt =====
-- kernel/ksh/ksh.c, `ksh_exec`: which handler runs, and on which arguments.
use feudos.Prelude.{
  ℕ, zero, suc, ◌+◌, ◌-◌, ◌<◌, ◌≡◌, ◌≢◌, ◌⊎◌, ◌∙◌, refl, ap, inl, inr, false, Bool-cases, Option,
  none, some, List, [], ◌∷◌, ◌++◌, arith, length, length-append, drop, set, replicate,
  if◌then◌else◌, ◌>>=◌, store, lt→ltb, ne→==false, ◌==◌,
}
use feudos.Str.{Lacks, codes, strfnl}
use feudos.Str.Compare.{same_text, streq-same_text, c_text}
use feudos.Str.Lexeme.{strfle_lexeme, strfnl_lexeme}
use feudos.Vga.{Screen}
use feudos.Vga.Valid.{IsValid}
use feudos.Printf.Format.{replay}
use feudos.Printf.Prints.{Prints-kprintf}
use feudos.Ksh.{
  Cpuid, Handler, uptime, cpuid, clear, uname, panic, echo, help, KshCmd, Ended, returned, call,
  exec_loop, args_at, ksh_exec, ksh_handlers,
}
use feudos.Ksh.Events.{unknown_events}
use feudos.Ksh.Commands.{text_format}

-- The commands by name.
abbrev pub names : List (List ℕ × Handler)
names =
    (codes "uptime", uptime)
    ∷ (codes "cpuid", cpuid)
    ∷ (codes "clear", clear)
    ∷ (codes "uname", uname)
    ∷ (codes "panic", panic)
    ∷ (codes "echo", echo)
    ∷ (codes "help", help)
    ∷ []

abbrev pub find : List ℕ → List (List ℕ × Handler) → Option Handler
find name [] = none
find name ((n, h) ∷ rest) = if same_text name n then some h else find name rest

-- A handler runs on the arguments; a name that no command has is reported.
abbrev pub dispatch : Cpuid → ℕ → Option Handler → List ℕ → List ℕ → Screen → Option Ended
dispatch id ticks none name args s = do t ← replay (unknown_events name) s; some (returned false t)
dispatch id ticks (some h) name args s = call id ticks h args s

-- A text is read up to its terminator.
c_text_lem : (name rest : List ℕ) → Lacks 0 name → c_text (name ++ 0 ∷ rest) ≡ some name
unfolding c_text
c_text_lem [] rest h = refl
c_text_lem (c ∷ name) rest h = ground (arith, c_text_lem name rest h.1)

-- The table has these names, each with its terminator.
abbrev Names : List KshCmd → List (List ℕ × Handler) → Type 0
Names [] [] = Unit
Names [] (t ∷ ts) = ⊥
Names (c ∷ cs) [] = ⊥
Names (c ∷ cs) ((n, h) ∷ ts) = (c.name ≡ n ++ 0 ∷ []) × (c.func ≡ h) × Lacks 0 n × Names cs ts

pub ksh_handlers-Names : Names ksh_handlers names
ksh_handlers-Names = (
  refl,
  refl,
  omega arith,
  (
    refl,
    refl,
    omega arith,
    (
      refl,
      refl,
      omega arith,
      (
        refl,
        refl,
        omega arith,
        (refl, refl, omega arith, (refl, refl, omega arith, (refl, refl, omega arith, tt))),
      ),
    ),
  ),
)

pub exec_loop-dispatch :
    (id : Cpuid) (ticks : ℕ) (cs : List KshCmd) (ts : List (List ℕ × Handler))
    (name rest args : List ℕ) (s : Screen)
    → Names cs ts
    → Lacks 0 name
    → IsValid s
    → exec_loop id ticks cs (name ++ 0 ∷ rest) args s ≡ dispatch id ticks (find name ts) name args s
unfolding exec_loop
exec_loop-dispatch id ticks [] [] name rest args s p h v =
    let (same, ok) =
      Prints-kprintf _ _ _ (text_format (name ++ 0 ∷ rest) name (c_text_lem name rest h)).2 s v in
    rw same refl
exec_loop-dispatch id ticks [] (t ∷ ts) name rest args s p h v = absurd p
exec_loop-dispatch id ticks (c ∷ cs) [] name rest args s p h v = absurd p
exec_loop-dispatch id ticks (c ∷ cs) ((n, f) ∷ ts) name rest args s (en, ef, hn, p) h v =
    rw (en, streq-same_text name n rest [] h hn)
      (elim (Bool-cases (same_text name n)) [
        | inl e ↦ rw (e, ef) refl
        | inr e ↦ rw e (exec_loop-dispatch id ticks cs ts name rest args s p h v)
      ])

set_end :
    (name : List ℕ) (e : ℕ) (rest : List ℕ)
    → set (name ++ e ∷ rest) (length name) 0 ≡ name ++ 0 ∷ rest
set_end [] e rest = refl
set_end (c ∷ name) e rest = ap (λ xs. c ∷ xs) (set_end name e rest)

-- The terminator overwrites the byte behind the name.
pub store_end :
    (name : List ℕ) (e : ℕ) (rest : List ℕ)
    → store (name ++ e ∷ rest) (length name) 0 ≡ some (name ++ 0 ∷ rest)
store_end name e rest =
    let inside : length name < length (name ++ e ∷ rest) =
      omega (arith, length-append name (e ∷ rest)) in
    rw (lt→ltb _ _ inside, set_end name e rest) refl

drop_end : (xs ys : List ℕ) (n : ℕ) → drop (length xs + n) (xs ++ ys) ≡ drop n ys
drop_end [] ys n = let e : 0 + n ≡ n = omega arith in rw e refl
drop_end (x ∷ xs) ys n =
    let e : suc (length xs) + n ≡ suc (length xs + n) = omega arith in rw e (drop_end xs ys n)

drop_gap : (k : ℕ) (ys : List ℕ) → drop k (replicate k 32 ++ ys) ≡ ys
drop_gap zero ys = refl
drop_gap (suc k) ys = drop_gap k ys

-- The arguments do not start with a separator.
abbrev pub Starts : List ℕ → Type 0
Starts [] = Unit
Starts (c ∷ args) = c ≢ 32

-- The byte that ends the name, behind which the command goes on.
module _ (id : Cpuid) (ticks : ℕ) (s : Screen) (v : IsValid s) (name : List ℕ)
    (name_text : Lacks 0 name) (one_word : Lacks 32 name) (some_name : 0 < length name) where
  exec_at :
      (e : ℕ) (rest : List ℕ) (start : Option ℕ)
      → (e ≡ 0) ⊎ (e ≡ 32)
      → strfnl (name ++ e ∷ rest) 32 ≡ some start
      → ksh_exec id ticks (name ++ e ∷ rest) s
        ≡ dispatch id ticks (find name names) name (args_at start (name ++ 0 ∷ rest)) s
  unfolding ksh_exec
  exec_at e rest start he hs =
      let at : length name - 1 + 1 ≡ length name = omega (arith, some_name) in
      rw
        (
          hs,
          strfle_lexeme 32 e name rest name_text one_word he some_name,
          at,
          store_end name e rest,
        )
        (exec_loop-dispatch id ticks ksh_handlers names name rest _ s ksh_handlers-Names name_text
          v)

  -- On a valid screen, a line of a non-empty name, spaces and arguments that do not start with a
  -- space runs the handler that the table names for it, on a text that reads as exactly these
  -- arguments; a name that no command has is reported as unknown.
  pub ksh_exec-dispatch :
      (k : ℕ) (args r : List ℕ)
      → Lacks 0 args
      → Starts args
      → (k ≡ 0 → args ≡ [])
      → (a : List ℕ) × (c_text a ≡ some args)
        × (ksh_exec id ticks (name ++ (replicate k 32 ++ (args ++ 0 ∷ r))) s
            ≡ dispatch id ticks (find name names) name a s)
  unfolding c_text
  ksh_exec-dispatch zero [] r h0 h1 h2 = (
    0 ∷ [],
    refl,
    exec_at 0 r none (inl refl)
        (strfnl_lexeme 32 0 0 name r name_text one_word (omega arith) (omega arith) (λ _. refl)),
  )
  ksh_exec-dispatch zero (c ∷ args) r h0 h1 h2 =
      let e : ◌≡◌ {A = List ℕ} (c ∷ args) [] = h2 refl in cc e
  ksh_exec-dispatch (suc k) [] r h0 h1 h2 = (
    0 ∷ [],
    refl,
    exec_at 32 _ none (inr refl) (
        strfnl_lexeme 32 (suc k) 0 name r name_text one_word (omega arith) (omega arith)
          (λ _. refl)),
  )
  ksh_exec-dispatch (suc k) (c ∷ args) r h0 h1 h2 =
      let rest = replicate k 32 ++ ((c ∷ args) ++ 0 ∷ r) in
      let start = some (length name + suc k) in
      let at : args_at start (name ++ 0 ∷ rest) ≡ (c ∷ args) ++ 0 ∷ r =
        drop_end name (0 ∷ rest) (suc k) ∙ drop_gap k ((c ∷ args) ++ 0 ∷ r) in
      let found =
        strfnl_lexeme 32 (suc k) c name (args ++ 0 ∷ r) name_text one_word (omega arith) h1
          (λ e. cc e) in
      (
        (c ∷ args) ++ 0 ∷ r,
        c_text_lem (c ∷ args) r h0,
        exec_at 32 rest start (inr refl)
              (found ∙ (let n : c == 0 ≡ false = ne→==false c 0 h0.0 in rw n refl))
            ∙ ap (λ a. dispatch id ticks (find name names) name a s) at,
      )

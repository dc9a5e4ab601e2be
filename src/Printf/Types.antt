-- ===== src/Printf/Types.antt =====
-- kernel/vga.c, `kvprintf`: the types of formats. `kvprintf` faults exactly on arguments that its
-- format does not demand.
use feudos.Prelude.{
  ℕ, ◌≡◌, ◌∙◌, refl, sym, Bool, true, false, Option, none, some, List, [], ◌∷◌, ◌++◌, ◌==◌, ◌>>=◌,
  if◌then◌else◌, Yields,
}
use feudos.Vga.{Screen}
use feudos.Vga.Valid.{IsValid}
use feudos.Printf.{Arg, Mode, plain, percent, long, kvprintf}
use feudos.Printf.Format.{Event, put, directive_events, long_events, format}
use feudos.Printf.Refine.{followed, kvprintf-format}
use feudos.Printf.Faults.{kvprintf-none}
use feudos.Printf.Kinds.{
  Kind, directive_kinds, long_kinds, demands, is_some, take_kinds, fits, well_typed,
  take_kinds-append, left, directive_events-left, long_events-left,
}

abbrev fits_behind : Option (List Arg) → Option (List Kind) → Bool
fits_behind none d = false
fits_behind (some rest) d = fits d rest

fits-append :
    (d : Option (List Kind)) (js : List Kind) (args : List Arg) (o : Option (List Arg))
    → o ≡ take_kinds js args
    → fits (do ks ← d; some (js ++ ks)) args ≡ fits_behind o d
fits-append none js args none e = refl
fits-append none js args (some rest) e = refl
fits-append (some ks) js args none e = rw (take_kinds-append js ks args, ← e) refl
fits-append (some ks) js args (some rest) e = rw (take_kinds-append js ks args, ← e) refl

is_some-map :
    (f : List Event → List Event) (o : Option (List Event))
    → is_some (do es ← o; some (f es)) ≡ is_some o
is_some-map f none = refl
is_some-map f (some es) = refl

-- A directive and the rest of the format.
followed-fits :
    (o : Option (List Event × List Arg)) (js : List Kind) (msg : List ℕ) (args : List Arg)
    → left o ≡ take_kinds js args
    → ((rest : List Arg) → is_some (format plain msg rest) ≡ fits (demands plain msg) rest)
    → is_some (followed o msg) ≡ fits (do ks ← demands plain msg; some (js ++ ks)) args
followed-fits none js msg args e next = sym (fits-append (demands plain msg) js args none e)
followed-fits (some (es, rest)) js msg args e next =
    is_some-map (λ more. es ++ more) (format plain msg rest)
    ∙ next rest
    ∙ sym (fits-append (demands plain msg) js args (some rest) e)

if_fits :
    (b : Bool) (m n : Option (List Event)) (d e : Option (List Kind)) (args : List Arg)
    → is_some m ≡ fits d args
    → is_some n ≡ fits e args
    → is_some (if b then m else n) ≡ fits (if b then d else e) args
if_fits true m n d e args h k = h
if_fits false m n d e args h k = k

format-fits :
    (mode : Mode) (msg : List ℕ) (args : List Arg)
    → is_some (format mode msg args) ≡ fits (demands mode msg) args
unfolding format demands
format-fits plain [] args = refl
format-fits percent [] args = refl
format-fits long [] args = refl
format-fits plain (c ∷ msg) args = if_fits (c == 0) _ _ _ _ args refl (
    if_fits (c == b'%') _ _ _ _ args (format-fits percent msg args)
      (is_some-map (λ es. put c ∷ es) (format plain msg args) ∙ format-fits plain msg args))
format-fits percent (c ∷ msg) args = if_fits (c == 0) _ _ _ _ args refl (
    if_fits (c == b'l') _ _ _ _ args (format-fits long msg args) (
      followed-fits (directive_events c args) (directive_kinds c) msg args
        (directive_events-left c args) (λ rest. format-fits plain msg rest)))
format-fits long (c ∷ msg) args =
    followed-fits (long_events c args) (long_kinds c) msg args (long_events-left c args)
      (λ rest. format-fits plain msg rest)

-- `kvprintf` on arguments that fit its format, and on others.
abbrev pub Runs : Bool → Option Screen → Type 0
Runs true m = Yields IsValid m
Runs false m = m ≡ none

-- On a valid screen, `kvprintf` does not fault on arguments of the kinds that the format demands,
-- and leaves a valid screen; on arguments that miss one, or are of another kind, or a text with no
-- terminator, or on a format with no end, it faults.
pub kvprintf-well_typed :
    (msg : List ℕ) (args : List Arg) (s : Screen)
    → IsValid s
    → Runs (well_typed msg args) (kvprintf msg args s)
kvprintf-well_typed msg args s v =
    rw (sym (format-fits plain msg args)) (formatted (format plain msg args) refl)
  where
    formatted :
        (o : Option (List Event))
        → format plain msg args ≡ o
        → Runs (is_some o) (kvprintf msg args s)
    formatted none e = kvprintf-none msg args s v e
    formatted (some es) e = (kvprintf-format msg args s es v e).1

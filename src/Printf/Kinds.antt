-- ===== src/Printf/Kinds.antt =====
-- kernel/vga.c, `kvprintf`: the kinds of arguments that formats demand, and what they leave.
use feudos.Prelude.{
  ℕ, ◌≡◌, refl, Bool, true, false, Bool-cases, inl, inr, Option, none, some, List, [], ◌∷◌, ◌++◌,
  map, ◌==◌, ◌>>=◌, if◌then◌else◌,
}
use feudos.Str.Compare.{c_text}
use feudos.Printf.{Arg, word, text, next_word, next_text, Mode, plain, percent, long}
use feudos.Printf.Format.{Event, put, directive_events, long_events}
use feudos.Printf.Directive.{word_events, text_events}

-- A word, or a text with a terminator.
pub data Kind : Type 0 where
  word_kind text_kind : Kind

abbrev pub directive_kinds : ℕ → List Kind
directive_kinds c =
    if c == b'd'
    then word_kind ∷ []
    else if c == b'u'
    then word_kind ∷ []
    else if c == b'c'
    then word_kind ∷ []
    else if c == b's'
    then text_kind ∷ []
    else if c == b'X'
    then word_kind ∷ []
    else if c == b'k'
    then word_kind ∷ []
    else []

abbrev pub long_kinds : ℕ → List Kind
long_kinds c = if c == b'd' then word_kind ∷ [] else if c == b'u' then word_kind ∷ [] else []

-- The kinds that a format demands, in order; `none` where it has no end.
unfoldable pub demands : Mode → List ℕ → Option (List Kind)
demands mode [] = none
demands plain (c ∷ msg) =
    let inside = demands percent msg in
    let rest = demands plain msg in if c == 0 then some [] else if c == b'%' then inside else rest
demands percent (c ∷ msg) =
    let behind_l = demands long msg in
    let rest = demands plain msg in
    if c == 0
    then some []
    else if c == b'l'
    then behind_l
    else (do ks ← rest; some (directive_kinds c ++ ks))
demands long (c ∷ msg) = do ks ← demands plain msg; some (long_kinds c ++ ks)

abbrev pub is_some {ℓ} : {A : Type ℓ} → Option A → Bool
is_some none = false
is_some (some a) = true

-- The arguments behind those of the kinds.
abbrev pub take_kinds : List Kind → List Arg → Option (List Arg)
take_kinds [] args = some args
take_kinds (word_kind ∷ ks) [] = none
take_kinds (word_kind ∷ ks) (word w ∷ args) = take_kinds ks args
take_kinds (word_kind ∷ ks) (text t ∷ args) = none
take_kinds (text_kind ∷ ks) [] = none
take_kinds (text_kind ∷ ks) (word w ∷ args) = none
take_kinds (text_kind ∷ ks) (text t ∷ args) =
    let rest = take_kinds ks args in if is_some (c_text t) then rest else none

-- The arguments begin with those of a format that ends.
abbrev pub fits : Option (List Kind) → List Arg → Bool
fits none args = false
fits (some ks) args = is_some (take_kinds ks args)

abbrev pub well_typed : List ℕ → List Arg → Bool
well_typed msg args = fits (demands plain msg) args

pub take_kinds-append :
    (js ks : List Kind) (args : List Arg)
    → take_kinds (js ++ ks) args ≡ (take_kinds js args >>= take_kinds ks)
take_kinds-append [] ks args = refl
take_kinds-append (word_kind ∷ js) ks [] = refl
take_kinds-append (word_kind ∷ js) ks (word w ∷ args) = take_kinds-append js ks args
take_kinds-append (word_kind ∷ js) ks (text t ∷ args) = refl
take_kinds-append (text_kind ∷ js) ks [] = refl
take_kinds-append (text_kind ∷ js) ks (word w ∷ args) = refl
take_kinds-append (text_kind ∷ js) ks (text t ∷ args) = elim (Bool-cases (is_some (c_text t))) [
  | inl y ↦ rw y (take_kinds-append js ks args)
  | inr n ↦ rw n refl
]

-- What is left of the arguments behind a directive.
abbrev pub left : Option (List Event × List Arg) → Option (List Arg)
left o = do (es, rest) ← o; some rest

word_events-left :
    (args : List Arg) (f : ℕ → List Event)
    → left (word_events args f) ≡ take_kinds (word_kind ∷ []) args
unfolding next_word
word_events-left [] f = refl
word_events-left (word w ∷ args) f = refl
word_events-left (text t ∷ args) f = refl

text_events-left : (args : List Arg) → left (text_events args) ≡ take_kinds (text_kind ∷ []) args
unfolding next_text
text_events-left [] = refl
text_events-left (word w ∷ args) = refl
text_events-left (text t ∷ args) = ended (c_text t)
  where
    ended :
        (o : Option (List ℕ))
        → left (do cs ← o; some (map put cs, args)) ≡ (if is_some o then some args else none)
    ended none = refl
    ended (some cs) = refl

if_left :
    (b : Bool) (m n : Option (List Event × List Arg)) (js ks : List Kind) (args : List Arg)
    → left m ≡ take_kinds js args
    → left n ≡ take_kinds ks args
    → left (if b then m else n) ≡ take_kinds (if b then js else ks) args
if_left true m n js ks args e f = e
if_left false m n js ks args e f = f

pub directive_events-left :
    (c : ℕ) (args : List Arg) → left (directive_events c args) ≡ take_kinds (directive_kinds c) args
unfolding directive_events
directive_events-left c args = if_left (c == b'd') _ _ _ _ args (word_events-left args _) (
    if_left (c == b'u') _ _ _ _ args (word_events-left args _) (
      if_left (c == b'c') _ _ _ _ args (word_events-left args _) (
        if_left (c == b's') _ _ _ _ args (text_events-left args) (
          if_left (c == b'X') _ _ _ _ args (word_events-left args _)
            (if_left (c == b'k') _ _ _ _ args (word_events-left args _) refl)))))

pub long_events-left :
    (c : ℕ) (args : List Arg) → left (long_events c args) ≡ take_kinds (long_kinds c) args
unfolding long_events
long_events-left c args =
    if_left (c == b'd') _ _ _ _ args (word_events-left args _)
      (if_left (c == b'u') _ _ _ _ args (word_events-left args _) refl)

-- ===== src/Printf/Faults.antt =====
-- kernel/vga.c, `kvprintf`: it faults where `format` finds no argument or no end.
use feudos.Prelude.{
  ℕ, ◌%◌, ◌^◌, ◌≡◌, refl, ◌⊎◌, inl, inr, Bool, true, false, Option, none, some, List, [], ◌∷◌, ◌++◌,
  map, ◌==◌, ◌>>=◌, if◌then◌else◌,
}
use feudos.Vga.{Screen, u8, vga_putc, vga_change_text_color}
use feudos.Vga.Valid.{IsValid}
use feudos.Vga.Putc.{vga_putc-Printed}
use feudos.Vga.Text.{vga_print-none}
use feudos.Str.Compare.{c_text}
use feudos.Printf.{
  Arg, kprint_int, kprint_uint, sign_extend32, next_word, next_text, directive, long_directive,
  Mode, plain, percent, long, kvprintf_loop, kvprintf,
}
use feudos.Printf.Format.{Event, put, directive_events, long_events, format}
use feudos.Printf.Directive.{
  replayed, word_events, word_print, text_events, text_print, directive-replay, long-replay,
}
use feudos.Printf.Refine.{followed, replay-IsValid}

-- A test whose branches fault together.
if_none {ℓ κ} :
    {A : Type ℓ} {B : Type κ} (b : Bool) (m n : Option A) (m' n' : Option B)
    → (m ≡ none → m' ≡ none)
    → (n ≡ none → n' ≡ none)
    → (if b then m else n) ≡ none
    → (if b then m' else n') ≡ none
if_none true m n m' n' k l = k
if_none false m n m' n' k l = l

-- A chain that faults does so in its first step, or behind it.
bind_cases {ℓ κ} :
    {A : Type ℓ} {B : Type κ} (o : Option A) (h : A → Option B)
    → (o >>= h) ≡ none
    → (o ≡ none) ⊎ ((a : A) × (o ≡ some a) × (h a ≡ none))
bind_cases none h e = inl refl
bind_cases (some a) h e = inr (a, refl, e)

-- A directive that finds no word, and one that finds no text or one with no terminator.
word_none :
    (args : List Arg) (f : ℕ → List Event) (g : ℕ → Screen → Option Screen) (s : Screen)
    → word_events args f ≡ none
    → word_print args g s ≡ none
word_none args f g s e = elim (bind_cases (next_word args) (λ (w, rest). some (f w, rest)) e) [
  | inl missing ↦ rw missing refl
  | inr (p, _, ended) ↦ cc ended
]

text_none :
    (args : List Arg) (s : Screen) → IsValid s → text_events args ≡ none → text_print args s ≡ none
text_none args s v e =
    elim (bind_cases (next_text args) (λ (x, rest). do cs ← c_text x; some (map put cs, rest)) e) [
      | inl missing ↦ rw missing refl
      | inr ((x, rest), found, e') ↦
          elim (bind_cases (c_text x) (λ cs. some (map put cs, rest)) e') [
            | inl unended ↦ rw (found, vga_print-none x s.text_color s v unended) refl
            | inr (cs, _, ended) ↦ cc ended
          ]
    ]

directive-none :
    (c : ℕ) (args : List Arg) (s : Screen)
    → IsValid s
    → directive_events c args ≡ none
    → directive c args s ≡ none
unfolding directive directive_events
directive-none c args s v =
    if_none (c == b'd') _ _ _ _
      (word_none args _ (λ w t. kprint_int (sign_extend32 w) t.text_color 10 t) s)
      (if_none (c == b'u') _ _ _ _
        (word_none args _ (λ w t. kprint_uint (w % 2 ^ 32) t.text_color 10 t) s)
        (if_none (c == b'c') _ _ _ _ (word_none args _ (λ w t. vga_putc (u8 w) t.text_color t) s) (
          if_none (c == b's') _ _ _ _ (text_none args s v) (
            if_none (c == b'X') _ _ _ _
              (word_none args _ (λ w t. kprint_uint w t.text_color 16 t) s)
              (if_none (c == b'k') _ _ _ _
                (word_none args _ (λ w t. some (vga_change_text_color (u8 w) t)) s) λ e. cc e)))))

long-none :
    (c : ℕ) (args : List Arg) (s : Screen)
    → long_events c args ≡ none
    → long_directive c args s ≡ none
unfolding long_directive long_events
long-none c args s =
    if_none (c == b'd') _ _ _ _ (word_none args _ (λ w t. kprint_int w t.text_color 10 t) s) (
      if_none (c == b'u') _ _ _ _ (word_none args _ (λ w t. kprint_uint w t.text_color 10 t) s)
        λ e. cc e)

-- A directive that faults, or the rest of the format that does.
after_none :
    (m : Option (List Arg × Screen)) (o : Option (List Event × List Arg)) (msg : List ℕ)
    (s : Screen)
    → IsValid s
    → (o ≡ none → m ≡ none)
    → ((es : List Event) (rest : List Arg) → o ≡ some (es, rest) → m ≡ replayed es rest s)
    → ((rest : List Arg) (t : Screen)
        → IsValid t
        → format plain msg rest ≡ none
        → kvprintf_loop plain msg rest t ≡ none)
    → followed o msg ≡ none
    → (m >>= λ (rest, t). kvprintf_loop plain msg rest t) ≡ none
after_none m none msg s v fails same next e = rw (fails refl) refl
after_none m (some (es, rest)) msg s v fails same next e =
    elim (bind_cases (format plain msg rest) (λ more. some (es ++ more)) e) [
      | inl unended ↦
          let (t, et, vt) = replay-IsValid es s v in
          rw (same es rest refl, et) (next rest t vt unended)
      | inr (more, _, ended) ↦ cc ended
    ]

kvprintf_loop-none :
    (mode : Mode) (msg : List ℕ) (args : List Arg) (s : Screen)
    → IsValid s
    → format mode msg args ≡ none
    → kvprintf_loop mode msg args s ≡ none
unfolding kvprintf_loop format
kvprintf_loop-none plain [] args s v = λ e. refl
kvprintf_loop-none percent [] args s v = λ e. refl
kvprintf_loop-none long [] args s v = λ e. refl
kvprintf_loop-none plain (c ∷ msg) args s v =
    if_none (c == 0) _ _ _ _ (λ e. cc e)
      (if_none (c == b'%') _ _ _ _ (kvprintf_loop-none percent msg args s v) λ e.
        let (t, et, p) = vga_putc-Printed s c s.text_color v in
        elim (bind_cases (format plain msg args) (λ es. some (put c ∷ es)) e) [
          | inl unended ↦ rw et (kvprintf_loop-none plain msg args t p.valid unended)
          | inr (more, _, ended) ↦ cc ended
        ])
kvprintf_loop-none percent (c ∷ msg) args s v =
    if_none (c == 0) _ _ _ _ (λ e. cc e)
      (if_none (c == b'l') _ _ _ _ (kvprintf_loop-none long msg args s v) (
        after_none (directive c args s) (directive_events c args) msg s v
          (directive-none c args s v) (λ es rest eo. directive-replay c args s v eo)
          (λ rest t vt em. kvprintf_loop-none plain msg rest t vt em)))
kvprintf_loop-none long (c ∷ msg) args s v =
    after_none (long_directive c args s) (long_events c args) msg s v (long-none c args s)
      (λ es rest eo. long-replay c args s v eo)
      (λ rest t vt em. kvprintf_loop-none plain msg rest t vt em)

pub kvprintf-none :
    (msg : List ℕ) (args : List Arg) (s : Screen)
    → IsValid s
    → format plain msg args ≡ none
    → kvprintf msg args s ≡ none
unfolding kvprintf
kvprintf-none msg args s v e = kvprintf_loop-none plain msg args s v e

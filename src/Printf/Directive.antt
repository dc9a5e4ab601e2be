-- ===== src/Printf/Directive.antt =====
-- kernel/vga.c, `kvprintf`: each directive prints its events on a valid screen.
use feudos.Prelude.{
  if_case, bind-eq-some, ℕ, ◌%◌, ◌^◌, ◌<◌, ◌≡◌, ◌∙◌, refl, sym, ap, Option, none, some, List, [],
  ◌∷◌, ◌++◌, map, arith, ◌==◌, ◌>>=◌, bind_cong, bind_assoc,
}
use feudos.Vga.{Screen, u8, vga_putc, vga_print, vga_change_text_color}
use feudos.Vga.Valid.{IsValid, Printed}
use feudos.Vga.Putc.{vga_putc-Printed}
use feudos.Str.Compare.{c_text, c_text-eq-some}
use feudos.Vga.Text.{put_text, bind_some, vga_print-put_text}
use feudos.Printf.{
  Arg, word, text, sign_extend32, next_word, next_text, directive, long_directive, kprint_int,
  kprint_uint,
}
use feudos.Printf.Numeral.{numeral, signed_numeral, kprint_uint-numeral, kprint_int-signed_numeral}
use feudos.Printf.Format.{Event, put, recolor, replay, directive_events, long_events}

-- The colour is not changed by a character.
pub color-Printed : (s t : Screen) → Printed s t → t.text_color ≡ s.text_color
color-Printed s t p = ap (λ (u : Screen). u.text_color) p.same

-- On a valid screen the events of a text are the text in the current colour.
pub replay-put :
    (cs : List ℕ) (color : ℕ) (s : Screen)
    → IsValid s
    → s.text_color ≡ color
    → replay (map put cs) s ≡ put_text color cs s
unfolding replay put_text
replay-put [] color s v e = refl
replay-put (c ∷ cs) color s v e =
    ap (λ k. vga_putc c k s >>= replay (map put cs)) e
    ∙ (let (t, et, p) = vga_putc-Printed s c color v in
        rw et (replay-put cs color t p.valid (color-Printed s t p ∙ e)))

vga_print-c_text :
    (x cs : List ℕ) (color : ℕ) (s : Screen)
    → c_text x ≡ some cs
    → vga_print x color s ≡ put_text color cs s
vga_print-c_text x cs color s e =
    let (r, ex, h) = c_text-eq-some x cs e in rw ex (vga_print-put_text color cs r s h)

next_word-lt :
    (args : List Arg) {w : ℕ} {rest : List Arg} → next_word args ≡ some (w, rest) → w < 2 ^ 64
unfolding next_word
next_word-lt [] e = cc
next_word-lt (word x ∷ args) e = ground arith
next_word-lt (text t ∷ args) e = cc

-- The two sides of a directive that takes a word.
abbrev pub word_events : List Arg → (ℕ → List Event) → Option (List Event × List Arg)
word_events args f = do (w, rest) ← next_word args; some (f w, rest)

abbrev pub word_print :
    List Arg → (ℕ → Screen → Option Screen) → Screen → Option (List Arg × Screen)
word_print args g s = do (w, rest) ← next_word args; t ← g w s; some (rest, t)

-- A screen beside the arguments left.
abbrev pub ended : List Arg → Option Screen → Option (List Arg × Screen)
ended rest m = do t ← m; some (rest, t)

-- What the events do, with the arguments left.
abbrev pub replayed : List Event → List Arg → Screen → Option (List Arg × Screen)
replayed es rest s = ended rest (replay es s)

-- If the code prints for each word what the events say, it does so for the word that it takes.
word_case :
    (args : List Arg) (f : ℕ → List Event) (g : ℕ → Screen → Option Screen) (s : Screen)
    {es : List Event} {rest : List Arg}
    → ((w : ℕ) → w < 2 ^ 64 → g w s ≡ replay (f w) s)
    → word_events args f ≡ some (es, rest)
    → word_print args g s ≡ replayed es rest s
word_case args f g s same e =
    let ((w, r), ew, eo) = bind-eq-some (next_word args) (λ (w, r). some (f w, r)) e in
    rw (ew, same w (next_word-lt args ew)) (ground arith)

abbrev pub text_events : List Arg → Option (List Event × List Arg)
text_events args = do (x, rest) ← next_text args; cs ← c_text x; some (map put cs, rest)

abbrev pub text_print : List Arg → Screen → Option (List Arg × Screen)
text_print args s = do (x, rest) ← next_text args; t ← vga_print x s.text_color s; some (rest, t)

text_case :
    (args : List Arg) (s : Screen) {es : List Event} {rest : List Arg}
    → IsValid s
    → text_events args ≡ some (es, rest)
    → text_print args s ≡ replayed es rest s
text_case args s v e =
    let ((x, r), ex, eo) =
      bind-eq-some (next_text args) (λ (x, r). do cs ← c_text x; some (map put cs, r)) e in
    let (cs, ec, eo') = bind-eq-some (c_text x) (λ cs. some (map put cs, r)) eo in
    rw (ex, vga_print-c_text x cs s.text_color s ec, ← replay-put cs s.text_color s v refl)
      (ground arith)

sign_extend32-lt : (w : ℕ) → sign_extend32 w < 2 ^ 64
unfolding sign_extend32
sign_extend32-lt w = ground arith

-- The numerals, in the current colour.
signed-replay :
    (num : ℕ) (s : Screen)
    → IsValid s
    → num < 2 ^ 64
    → kprint_int num s.text_color 10 s ≡ replay (map put (signed_numeral 10 num)) s
signed-replay num s v h =
    kprint_int-signed_numeral num s.text_color s h
    ∙ sym (replay-put (signed_numeral 10 num) s.text_color s v refl)

unsigned-replay :
    (base num : ℕ) (s : Screen)
    → IsValid s
    → 0 < base
    → num < base ^ 20
    → kprint_uint num s.text_color base s ≡ replay (map put (numeral base num)) s
unsigned-replay base num s v hb h =
    kprint_uint-numeral base num s.text_color s hb h
    ∙ sym (replay-put (numeral base num) s.text_color s v refl)

pub char-replay : (c : ℕ) (s : Screen) → vga_putc c s.text_color s ≡ replay (put c ∷ []) s
unfolding replay
char-replay c s = sym (bind_some (vga_putc c s.text_color s))

-- A chain that ends in `replay []` ends.
end_assoc :
    (args : List Arg) (m : Option Screen) (f : Screen → Option Screen)
    → (m >>= λ t. ended args (f t)) ≡ ended args (m >>= λ t. f t >>= some)
end_assoc args none f = refl
end_assoc args (some t) f = ap (ended args) (sym (bind_some (f t)))

pub replay-append :
    (es fs : List Event) (s : Screen) → replay (es ++ fs) s ≡ (replay es s >>= replay fs)
unfolding replay
replay-append [] fs s = refl
replay-append (put c ∷ es) fs s =
    bind_cong (vga_putc c s.text_color s) _ _ (replay-append es fs)
    ∙ sym (bind_assoc (vga_putc c s.text_color s) (replay es) (replay fs))
replay-append (recolor k ∷ es) fs s = replay-append es fs (vga_change_text_color k s)

pair-replay :
    (c : ℕ) (args : List Arg) (s : Screen)
    → (do t ← vga_putc b'%' s.text_color s; u ← vga_putc c t.text_color t; some (args, u))
      ≡ replayed (put b'%' ∷ put c ∷ []) args s
unfolding replay
pair-replay c args s =
    end_assoc args (vga_putc b'%' s.text_color s) (λ t. vga_putc c t.text_color t)

pub directive-replay :
    (c : ℕ) (args : List Arg) (s : Screen) {es : List Event} {rest : List Arg}
    → IsValid s
    → directive_events c args ≡ some (es, rest)
    → directive c args s ≡ replayed es rest s
unfolding directive directive_events replay
directive-replay c args s v =
    if_case _ (c == b'd') _ _ _ _
      (word_case args _ (λ w t. kprint_int (sign_extend32 w) t.text_color 10 t) s
        λ w h. signed-replay _ s v (sign_extend32-lt w))
      (if_case _ (c == b'u') _ _ _ _
        (word_case args _ (λ w t. kprint_uint (w % 2 ^ 32) t.text_color 10 t) s
          λ w h. unsigned-replay 10 _ s v (omega arith) (omega arith))
        (if_case _ (c == b'c') _ _ _ _
          (word_case args _ (λ w t. vga_putc (u8 w) t.text_color t) s λ w h. char-replay (u8 w) s)
          (if_case _ (c == b's') _ _ _ _ (text_case args s v) (
            if_case _ (c == b'X') _ _ _ _
              (word_case args _ (λ w t. kprint_uint w t.text_color 16 t) s
                λ w h. unsigned-replay 16 _ s v (omega arith) (omega arith))
              (if_case _ (c == b'k') _ _ _ _
                (word_case args _ (λ w t. some (vga_change_text_color (u8 w) t)) s λ w h. refl)
                λ e. pair-replay c args s ∙ cc e)))))

unknown_long-replay :
    (c : ℕ) (args : List Arg) (s : Screen)
    → IsValid s
    → (do
      t ← vga_print (b'%' ∷ b'l' ∷ 0 ∷ []) s.text_color s
      u ← vga_putc c t.text_color t
      some (args, u))
      ≡ replayed (put b'%' ∷ put b'l' ∷ put c ∷ []) args s
unknown_long-replay c args s v =
    rw
      (
        vga_print-put_text s.text_color (b'%' ∷ b'l' ∷ []) [] s (omega arith),
        ← replay-put (b'%' ∷ b'l' ∷ []) s.text_color s v refl,
        replay-append (put b'%' ∷ put b'l' ∷ []) (put c ∷ []) s,
      )
      (unfold replay in
        end_assoc args (replay (put b'%' ∷ put b'l' ∷ []) s) (λ t. vga_putc c t.text_color t))

pub long-replay :
    (c : ℕ) (args : List Arg) (s : Screen) {es : List Event} {rest : List Arg}
    → IsValid s
    → long_events c args ≡ some (es, rest)
    → long_directive c args s ≡ replayed es rest s
unfolding long_directive long_events
long-replay c args s v =
    if_case _ (c == b'd') _ _ _ _
      (word_case args _ (λ w t. kprint_int w t.text_color 10 t) s λ w h. signed-replay _ s v h)
      (if_case _ (c == b'u') _ _ _ _
        (word_case args _ (λ w t. kprint_uint w t.text_color 10 t) s
          λ w h. unsigned-replay 10 _ s v (omega arith) (omega arith))
        λ e. unknown_long-replay c args s v ∙ cc e)

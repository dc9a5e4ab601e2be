-- ===== src/Keyboard/Edit.antt =====
-- kernel/keyboard.c: the line buffer keeps its bounds, and edits the typed text.
use native.Mathlib.Numerals.{add-one}
use feudos.Prelude.{
  sym, length-take, Yields-bind, ℕ, zero, suc, ◌+◌, ◌-◌, ◌<◌, ◌≡◌, ◌∙◌, refl, ap, List, [], ◌∷◌,
  ◌++◌, arith, ◌==◌, if◌then◌else◌, length, set, get_or, take, length-set, Yields,
  get_elem?-eq-get_or, Bool-cases, inl, inr,
}
use feudos.Keyboard.{KbdBuffer, kbd_buf_size, kbd_buf_pop, kbd_buffer_push}

-- The buffer has its size, and the position leaves room for one byte.
pub record IsValid (k : KbdBuffer) : Type 0 where
  pub size : length k.buf ≡ kbd_buf_size
  pub room : k.pos < kbd_buf_size

-- The text typed so far.
abbrev pub typed : KbdBuffer → List ℕ
typed k = take k.pos k.buf

-- A text without its last byte.
unfoldable pub drop_last : List ℕ → List ℕ
drop_last [] = []
drop_last (x ∷ []) = []
drop_last (x ∷ y ∷ xs) = x ∷ drop_last (y ∷ xs)

-- What a key does to the text: '\b' takes the last byte, any other byte is added, and starts a new
-- text where there is no room.
unfoldable pub edit : ℕ → List ℕ → List ℕ
edit c xs =
    if c == 8 then drop_last xs else if length xs == kbd_buf_size - 1 then c ∷ [] else xs ++ c ∷ []

take-set_end :
    (xs : List ℕ) (n v : ℕ) → n < length xs → take (suc n) (set xs n v) ≡ take n xs ++ v ∷ []
take-set_end [] n v h = absurd (omega arith)
take-set_end (x ∷ xs) zero v h = refl
take-set_end (x ∷ xs) (suc n) v h = ap (λ r. x ∷ r) (take-set_end xs n v (omega arith))

take-set_pop :
    (xs : List ℕ) (n v : ℕ) → n < length xs → take n (set xs n v) ≡ drop_last (take (suc n) xs)
unfolding drop_last
take-set_pop [] n v h = absurd (omega arith)
take-set_pop (x ∷ []) zero v h = refl
take-set_pop (x ∷ y ∷ xs) zero v h = refl
take-set_pop (x ∷ []) (suc n) v h = absurd (omega arith)
take-set_pop (x ∷ y ∷ xs) (suc n) v h = ap (λ r. x ∷ r) (take-set_pop (y ∷ xs) n v (omega arith))

-- `kbd_buf_pop` at a position above 0: it returns the last byte, and puts a NUL in its place.
kbd_buf_pop-drop_last :
    (k : KbdBuffer)
    → IsValid k
    → Yields (λ out. IsValid out.1 × (typed out.1 ≡ drop_last (typed k))) (kbd_buf_pop k)
unfolding kbd_buf_pop drop_last
kbd_buf_pop-drop_last k v = elim (Bool-cases (k.pos == 0)) [
  | inl e ↦ ((0, k), rw e, (v, (let f : k.pos ≡ 0 = ground arith in rw f)))
  | inr e ↦
      let p = k.pos - 1 in
      let f : k.pos ≡ suc p = ground arith in
      (
        (get_or k.buf p 0, record { buf = set k.buf p 0; pos = p }),
        ground (arith, get_elem?-eq-get_or k.buf p 0, v.size, v.room),
        (
          record { size = length-set k.buf p 0 ∙ v.size; room = omega (arith, v.room) },
          take-set_pop k.buf p 0 (omega (arith, v.size, v.room))
              ∙ ap (λ n. drop_last (take n k.buf)) (sym f),
        ),
      )
]

length-typed : (k : KbdBuffer) → IsValid k → length (typed k) ≡ k.pos
length-typed k v = omega (arith, length-take k.pos k.buf, v.size, v.room)

-- A key keeps the bounds of a valid buffer, and edits the typed text: '\b' takes the last byte if
-- there is one, any other byte is added at the end, and the one that finds 2047 bytes there starts
-- a new text.
pub kbd_buffer_push-edit :
    (c : ℕ) (k : KbdBuffer)
    → IsValid k
    → Yields (λ k'. IsValid k' × (typed k' ≡ edit c (typed k))) (kbd_buffer_push c k)
unfolding kbd_buffer_push edit
kbd_buffer_push-edit c k v = elim (Bool-cases (c == 8)) [
  | inl e ↦
      rw e (Yields-bind (kbd_buf_pop k) _ (kbd_buf_pop-drop_last k v) λ out p. (out.1, refl, p))
  | inr e ↦ rw e (elim (Bool-cases (k.pos == kbd_buf_size - 1)) [
    | inl full ↦ rw full (
      record { buf = set k.buf 0 c; pos = 1 },
      ground (arith, v.size),
      (
        record { size = length-set k.buf 0 c ∙ v.size; room = omega arith },
        take-set_end k.buf 0 c (omega (arith, v.size)) ∙ sym (rw (length-typed k v, full)),
      ),
    )
    | inr free ↦ rw free (
      record { buf = set k.buf k.pos c; pos = k.pos + 1 },
      ground (arith, v.size, v.room),
      (
        record { size = length-set k.buf k.pos c ∙ v.size; room = ground (arith, v.room) },
        ap (λ n. take n (set k.buf k.pos c)) (add-one k.pos)
            ∙ take-set_end k.buf k.pos c (omega (arith, v.size, v.room))
            ∙ sym (rw (length-typed k v, free)),
      ),
    )
  ])
]

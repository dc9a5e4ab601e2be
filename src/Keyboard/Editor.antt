-- ===== src/Keyboard/Editor.antt =====
-- The line that is typed behind earlier text, as kernel/keyboard.c edits it.
use feudos.Prelude.{
  ℕ, ◌+◌, ◌-◌, ◌≡◌, ◌∙◌, ap, refl, Bool, false, Option, none, some, List, [], ◌∷◌, ◌++◌, arith,
  ◌==◌, if◌then◌else◌, length, length-append, ◌>>=◌, bind-eq-some, Bool-cases, inl, inr,
}
use mathlib.Core.List.{append_assoc}
use feudos.Keyboard.{kbd_buf_size}
use feudos.Keyboard.Edit.{drop_last, edit}
use feudos.Keyboard.Scancode.{edit_all}

-- A character of a line behind which there is room for `room` bytes: '\b' takes back a character of
-- the line, any other byte is added. None where the line has no character to take back or no room.
unfoldable pub take_back : List ℕ → Option (List ℕ)
take_back [] = none
take_back (x ∷ xs) = some (drop_last (x ∷ xs))

unfoldable pub edit_line : ℕ → ℕ → List ℕ → Option (List ℕ)
edit_line room c ln =
    if c == 8 then take_back ln else if length ln == room then none else some (ln ++ c ∷ [])

unfoldable pub edits : ℕ → List ℕ → List ℕ → Option (List ℕ)
edits room [] ln = some ln
edits room (c ∷ cs) ln = edit_line room c ln >>= edits room cs

drop_last-append :
    (base : List ℕ) (x : ℕ) (xs : List ℕ) → drop_last (base ++ x ∷ xs) ≡ base ++ drop_last (x ∷ xs)
unfolding drop_last
drop_last-append [] x xs = refl
drop_last-append (b ∷ []) x xs = refl
drop_last-append (b ∷ d ∷ base) x xs = ap (λ r. b ∷ r) (drop_last-append (d ∷ base) x xs)

drop_last-take_back :
    (base ln ln' : List ℕ) → take_back ln ≡ some ln' → drop_last (base ++ ln) ≡ base ++ ln'
unfolding take_back
drop_last-take_back base [] ln' e = cc e
drop_last-take_back base (x ∷ xs) ln' e =
    let f : drop_last (x ∷ xs) ≡ ln' = cc e in drop_last-append base x xs ∙ ap (λ r. base ++ r) f

module _ (base : List ℕ) (room : ℕ) (whole : length base + room ≡ kbd_buf_size - 1) where
  edit-edit_line :
      (c : ℕ) (ln ln' : List ℕ) → edit_line room c ln ≡ some ln' → edit c (base ++ ln) ≡ base ++ ln'
  unfolding edit edit_line
  edit-edit_line c ln ln' e = elim (Bool-cases (c == 8)) [
    | inl y ↦ rw y (drop_last-take_back base ln ln' (rw y at e))
    | inr y ↦ elim (Bool-cases (length ln == room)) [
      | inl full ↦ absurd (cc (rw (y, full) at e))
      | inr free ↦
          let same : length (base ++ ln) == kbd_buf_size - 1 ≡ false =
            ground (arith, whole, length-append base ln) in
          let f : ln ++ c ∷ [] ≡ ln' = cc (rw (y, free) at e) in
          rw (y, same) (append_assoc base ln (c ∷ []) ∙ ap (λ r. base ++ r) f)
    ]
  ]

  -- What the editor does to the whole text.
  pub edit_all-edits :
      (cs ln ln' : List ℕ) → edits room cs ln ≡ some ln' → edit_all cs (base ++ ln) ≡ base ++ ln'
  unfolding edits edit_all
  edit_all-edits [] ln ln' e = ap (λ r. base ++ r) (cc e)
  edit_all-edits (c ∷ cs) ln ln' e =
      let (mid, em, er) = bind-eq-some (edit_line room c ln) (edits room cs) e in
      rw (edit-edit_line c ln mid em) (edit_all-edits cs mid ln' er)

-- The line is there once its last character is a newline.
unfoldable pub is_complete : List ℕ → Bool
is_complete [] = false
is_complete (x ∷ []) = x == 10
is_complete (x ∷ y ∷ xs) = is_complete (y ∷ xs)

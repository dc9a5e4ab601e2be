-- ===== src/Keyboard/Keys.antt =====
-- kernel/keyboard.c: the scancodes of one `hlt`, handled one after the other.
use feudos.Prelude.{
  ℕ, ◌<◌, ◌≡◌, ◌∙◌, ap, refl, sym, Bool, some, List, [], ◌∷◌, ◌++◌, ◌>>=◌, bind_cong, bind_assoc,
  Yields, Yields-bind, Yields-mono,
}
use feudos.Vga.{Screen}
use feudos.Vga.Valid
use feudos.Vga.Valid.{Printed, Printed-trans}
use feudos.Vga.Text.{put_text, put_text-append, bind_some}
use feudos.Keyboard.{Keyboard, kbd_handle_scancode, handle_all}
use feudos.Keyboard.Edit.{IsValid}
use feudos.Keyboard.Scancode.{
  Entered, Entered-nil, entered, edit_all, shift_after, kbd_handle_scancode-entered,
}

-- Bytes.
abbrev pub Bytes : List ℕ → Type 0
Bytes [] = Unit
Bytes (sc ∷ scs) = (sc < 256) × Bytes scs

-- The characters that scancodes enter, and the shift state after them.
unfoldable pub keyed : Bool → List ℕ → List ℕ
keyed shift [] = []
keyed shift (sc ∷ scs) = entered shift sc ++ keyed (shift_after shift sc) scs

unfoldable pub shifted : Bool → List ℕ → Bool
shifted shift [] = shift
shifted shift (sc ∷ scs) = shifted (shift_after shift sc) scs

pub edit_all-append : (cs ds xs : List ℕ) → edit_all (cs ++ ds) xs ≡ edit_all ds (edit_all cs xs)
unfolding edit_all
edit_all-append [] ds xs = refl
edit_all-append (c ∷ cs) ds xs = edit_all-append cs ds _

-- Characters entered one list after the other.
pub Entered-append :
    {cs ds : List ℕ} {k : Keyboard} {s : Screen} {k1 : Keyboard} {t : Screen} {k2 : Keyboard}
    {u : Screen}
    → Entered cs k s k1 t
    → Entered ds k1 t k2 u
    → Entered (cs ++ ds) k s k2 u
Entered-append {cs = cs} {ds = ds} {k = k} {s = s} {t = t} {u = u} a b =
    let color : t.text_color ≡ s.text_color = ap (λ (w : Screen). w.text_color) a.screen.same in
    let echo : put_text s.text_color ds t ≡ some u =
      ap (λ c. put_text c ds t) (sym color) ∙ b.echo in
    record {
      valid = b.valid;
      screen = Printed-trans _ _ _ a.screen b.screen;
      text = b.text ∙ ap (edit_all ds) a.text ∙ sym (edit_all-append cs ds _);
      echo = put_text-append s.text_color cs ds s ∙ rw a.echo echo;
    }

pub Entered-same :
    (cs ds : List ℕ) (k : Keyboard) (s : Screen) (k' : Keyboard) (t : Screen)
    → cs ≡ ds
    → Entered cs k s k' t
    → Entered ds k s k' t
Entered-same cs ds k s k' t e h = rw e at h

-- On a valid buffer and screen the scancodes are handled without a fault, and enter their
-- characters.
pub handle_all-keyed :
    (scs : List ℕ) (k : Keyboard) (s : Screen)
    → Bytes scs
    → IsValid k.kbd_buf
    → Valid.IsValid s
    → Yields
        (λ (k', t).
          Entered (keyed k.shift_held scs) k s k' t × (k'.shift_held ≡ shifted k.shift_held scs))
        (handle_all scs k s)
unfolding handle_all keyed shifted
handle_all-keyed [] k s b v vs = ((k, s), refl, (Entered-nil k s k.shift_held v vs, refl))
handle_all-keyed (sc ∷ scs) k s (hb, b) v vs =
    Yields-bind _ _ (kbd_handle_scancode-entered sc k s hb v vs) λ (k1, t) (e, h).
      Yields-mono _ (handle_all-keyed scs k1 t b e.valid e.screen.valid) λ (k2, u) (e', h'). (
        Entered-append e (Entered-same _ _ k1 t k2 u (ap (λ b. keyed b scs) h) e'),
        h' ∙ ap (λ b. shifted b scs) h,
      )

-- Scancodes handled one list after the other, none, and one.
pub handle_all-append :
    (scs rest : List ℕ) (k : Keyboard) (s : Screen)
    → handle_all (scs ++ rest) k s ≡ (handle_all scs k s >>= λ (k', t). handle_all rest k' t)
unfolding handle_all
handle_all-append [] rest k s = refl
handle_all-append (sc ∷ scs) rest k s =
    bind_cong (kbd_handle_scancode sc k s) _ _ (λ (k', t). handle_all-append scs rest k' t)
    ∙ sym (
        bind_assoc (kbd_handle_scancode sc k s) (λ (k', t). handle_all scs k' t)
          (λ (k', t). handle_all rest k' t))

pub handle_all-nil : (k : Keyboard) (s : Screen) → handle_all [] k s ≡ some (k, s)
unfolding handle_all
handle_all-nil k s = refl

pub handle_all-one :
    (sc : ℕ) (k : Keyboard) (s : Screen) → handle_all (sc ∷ []) k s ≡ kbd_handle_scancode sc k s
unfolding handle_all
handle_all-one sc k s = bind_some (kbd_handle_scancode sc k s)

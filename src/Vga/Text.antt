-- ===== src/Vga/Text.antt =====
-- kernel/vga.c: a text is its characters put one after another.
use feudos.Prelude.{
  ℕ, ◌≡◌, refl, Option, none, some, List, [], ◌∷◌, ◌++◌, ◌>>=◌, ◌∙◌, sym, bind_cong, bind_assoc,
  ne→==false, Bool-cases, inl, inr, ◌==◌, Yields, Yields-bind, Yields-mono,
}
use feudos.Str.{Lacks}
use feudos.Str.Compare.{c_text}
use feudos.Vga.{Screen, vga_putc, vga_print}
use feudos.Vga.Valid.{IsValid, Printed, Printed-trans}
use feudos.Vga.Putc.{vga_putc-Printed}

-- The characters in order, in one colour.
unfoldable pub put_text : ℕ → List ℕ → Screen → Option Screen
put_text color [] s = some s
put_text color (c ∷ cs) s = vga_putc c color s >>= put_text color cs

pub put_text-append :
    (color : ℕ) (cs ds : List ℕ) (s : Screen)
    → put_text color (cs ++ ds) s ≡ (put_text color cs s >>= put_text color ds)
unfolding put_text
put_text-append color [] ds s = refl
put_text-append color (c ∷ cs) ds s =
    bind_cong (vga_putc c color s) _ _ (put_text-append color cs ds)
    ∙ sym (bind_assoc (vga_putc c color s) (put_text color cs) (put_text color ds))

pub bind_some {ℓ} : {A : Type ℓ} (m : Option A) → (m >>= some) ≡ m
bind_some none = refl
bind_some (some a) = refl

pub put_text-one : (color c : ℕ) (s : Screen) → put_text color (c ∷ []) s ≡ vga_putc c color s
unfolding put_text
put_text-one color c s = bind_some (vga_putc c color s)

-- Putting a text keeps the screen valid.
pub put_text-Printed :
    (color : ℕ) (cs : List ℕ) (s : Screen) → IsValid s → Yields (Printed s) (put_text color cs s)
unfolding put_text
put_text-Printed color [] s v = (s, refl, record { valid = v; same = refl })
put_text-Printed color (c ∷ cs) s v =
    Yields-bind (vga_putc c color s) (put_text color cs) (vga_putc-Printed s c color v) λ t p.
      Yields-mono (put_text color cs t) (put_text-Printed color cs t p.valid)
        (λ u q. Printed-trans s t u p q)

-- `vga_print` of a NUL-terminated text puts the bytes before the terminator.
pub vga_print-put_text :
    (color : ℕ) (cs r : List ℕ) (s : Screen)
    → Lacks 0 cs
    → vga_print (cs ++ 0 ∷ r) color s ≡ put_text color cs s
unfolding vga_print put_text
vga_print-put_text color [] r s h = refl
vga_print-put_text color (c ∷ cs) r s h =
    rw (ne→==false c 0 h.0)
      (bind_cong (vga_putc c color s) _ _ λ t. vga_print-put_text color cs r t h.1)

-- A text with no terminator is read past its end.
pub vga_print-none :
    (x : List ℕ) (color : ℕ) (s : Screen) → IsValid s → c_text x ≡ none → vga_print x color s ≡ none
unfolding vga_print c_text
vga_print-none [] color s v e = refl
vga_print-none (c ∷ x) color s v e = elim (Bool-cases (c == 0)) [
  | inl z ↦ cc (rw z at e)
  | inr z ↦
      let (t, et, p) = vga_putc-Printed s c color v in
      rw (z, et) (vga_print-none x color t p.valid (unended (c_text x) (rw z at e)))
]
  where
    unended : (m : Option (List ℕ)) → (do t ← m; some (c ∷ t)) ≡ none → m ≡ none
    unended none e = refl
    unended (some t) e = cc e

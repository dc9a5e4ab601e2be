-- ===== src/Boot/Guards.antt =====
-- arch/x86_64/boot.c: when `_start` gives up.
use feudos.Prelude.{
  ℕ, ◌≡◌, ◌≢◌, refl, Option, none, some, List, [], ◌∷◌, ◌==◌, arith, Bool-cases, inl, inr, ◌⊎◌,
  ==_iff,
}
use feudos.Io.{Device}
use feudos.Vga.{Framebuffer}
use feudos.Boot.{Loaded, KernelAddress, Requests, Boot, hung, guarded, start_on, start}

-- All that `_start` needs has been answered, with `g` the first framebuffer.
pub record Answered (r : Requests) (hhdm : ℕ) (k : KernelAddress) (g : Framebuffer) : Type 0 where
  pub supported : r.revision_left ≡ 0
  pub mapped : r.hhdm ≡ some hhdm
  pub placed : r.kaddr ≡ some k
  pub others : List Framebuffer
  pub shown : r.framebuffers ≡ some (g ∷ others)

-- Something is missing.
pub data Missing (r : Requests) : Type 0 where
  revision : r.revision_left ≢ 0 → Missing r
  hhdm : r.hhdm ≡ none → Missing r
  kaddr : r.kaddr ≡ none → Missing r
  response : r.framebuffers ≡ none → Missing r
  framebuffer : r.framebuffers ≡ some [] → Missing r

-- `_start` with these answers: it hangs, or it goes on.
abbrev pub Decided : Device → Loaded → Requests → Option Boot → Type 0
Decided dev l r b =
    (Missing r × (b ≡ some hung))
    ⊎ ((hhdm : ℕ) × (k : KernelAddress) × (g : Framebuffer) × Answered r hhdm k g
        × (b ≡ start_on dev l hhdm k g))

guarded-Decided :
    (dev : Device) (l : Loaded) (r : Requests) (h : Option ℕ) (k : Option KernelAddress)
    (fbs : Option (List Framebuffer))
    → r.revision_left ≡ 0
    → r.hhdm ≡ h
    → r.kaddr ≡ k
    → r.framebuffers ≡ fbs
    → Decided dev l r (guarded dev l h k fbs)
unfolding guarded
guarded-Decided dev l r none k fbs er eh ek ef = inl (hhdm eh, refl)
guarded-Decided dev l r (some h) none fbs er eh ek ef = inl (kaddr ek, refl)
guarded-Decided dev l r (some h) (some k) none er eh ek ef = inl (response ef, refl)
guarded-Decided dev l r (some h) (some k) (some []) er eh ek ef = inl (framebuffer ef, refl)
guarded-Decided dev l r (some h) (some k) (some (g ∷ gs)) er eh ek ef =
    inr
      (h, k, g, record { supported = er; mapped = eh; placed = ek; others = gs; shown = ef }, refl)

-- `_start` halts for good exactly where the loader does not support the revision, or has not
-- answered one of the three requests, or knows no framebuffer; where all is answered it goes on
-- with the first framebuffer.
pub start-Decided : (dev : Device) (l : Loaded) (r : Requests) → Decided dev l r (start dev l r)
unfolding start
start-Decided dev l r = elim (Bool-cases (r.revision_left == 0)) [
  | inl e ↦ rw e (guarded-Decided dev l r _ _ _ ((==_iff _ _).0 e) refl refl refl)
  | inr e ↦ rw e (inl (revision (λ z. ground arith), refl))
]

-- ===== src/Timer/Sleep.antt =====
-- kernel/timer.c, `sleep_ticks`: how long it sleeps.
use feudos.Prelude.{
  ℕ, ◌+◌, ◌%◌, ◌^◌, ◌≤◌, ◌<◌, ◌≡◌, ◌∙◌, ap, refl, List, [], ◌∷◌, ◌++◌, arith, ltb, Bool-cases, inl,
  inr, ltb→lt,
}
use feudos.Timer.{ticked, woken, sleep_loop, sleep_ticks}
use feudos.Timer.Clock.{ticked-add}

abbrev pub sum : List ℕ → ℕ
sum [] = 0
sum (k ∷ ks) = k + sum ks

-- The rounds `done` of the sleep reach the target, and the last of them was needed.
abbrev pub Reached : ℕ → ℕ → List ℕ → Type 0
Reached target ticks done =
    (target ≤ ticks + sum done)
    × ((before : List ℕ) (k : ℕ) → done ≡ before ++ k ∷ [] → ticks + sum before < target)

Reached-cons :
    (target ticks k : ℕ) (done : List ℕ)
    → ticks < target
    → Reached target (ticks + k) done
    → Reached target ticks (k ∷ done)
Reached-cons target ticks k done h (r, m) = (omega (arith, r), minimal)
  where
    minimal :
        (before : List ℕ) (k' : ℕ) → k ∷ done ≡ before ++ k' ∷ [] → ticks + sum before < target
    minimal [] k' e = omega (arith, h)
    minimal (b ∷ before) k' e = let same : k ≡ b = cc e in omega (arith, same, m before k' (cc e))

-- No round was needed for a target that is reached already.
Reached-nil : (target ticks : ℕ) → target ≤ ticks → Reached target ticks []
Reached-nil target ticks h = (omega (arith, h), minimal)
  where
    minimal :
        (before : List ℕ) (k : ℕ)
        → ◌≡◌ {A = List ℕ} [] (before ++ k ∷ [])
        → ticks + sum before < target
    minimal [] k e = cc e
    minimal (b ∷ before) k e = cc e

sleep_loop-Reached :
    (target ticks : ℕ) (wakes : List ℕ)
    → ticks + sum wakes < 2 ^ 64
    → target ≤ ticks + sum wakes
    → (done rest : List ℕ) × (done ++ rest ≡ wakes)
      × (sleep_loop target wakes ticks ≡ woken (ticks + sum done) rest)
      × Reached target ticks done
unfolding sleep_loop
sleep_loop-Reached target ticks [] h e =
    ([], [], refl, ground arith, Reached-nil target ticks (omega arith))
sleep_loop-Reached target ticks (k ∷ wakes) h e = elim (Bool-cases (ltb ticks target)) [
  | inl lt ↦
      let t : ticked k ticks ≡ ticks + k = ticked-add k ticks (omega arith) ∙ omega arith in
      let (done, rest, split, run, r) =
        sleep_loop-Reached target (ticks + k) wakes (omega arith) (omega arith) in
      let run' : sleep_loop target wakes (ticked k ticks) ≡ woken (ticks + (k + sum done)) rest =
        ap (sleep_loop target wakes) t ∙ run ∙ ap (λ n. woken n rest) (omega arith) in
      (
        k ∷ done,
        rest,
        ap (λ ks. k ∷ ks) split,
        rw lt run',
        Reached-cons target ticks k done (ltb→lt ticks target lt) r,
      )
  | inr ge ↦ ([], k ∷ wakes, refl, ground arith, Reached-nil target ticks (ground arith))
]

-- Where enough timer interrupts come and the counter stays within 64 bits, `sleep_ticks` ends, at
-- the first `hlt` after which n ticks have passed, and leaves the later interrupts.
pub sleep_ticks-Reached :
    (n ticks : ℕ) (wakes : List ℕ)
    → ticks + sum wakes < 2 ^ 64
    → n ≤ sum wakes
    → (done rest : List ℕ) × (done ++ rest ≡ wakes)
      × (sleep_ticks n wakes ticks ≡ woken (ticks + sum done) rest)
      × Reached (ticks + n) ticks done
unfolding sleep_ticks
sleep_ticks-Reached n ticks wakes h e =
    let target : (ticks + n) % 2 ^ 64 ≡ ticks + n = omega arith in
    rw target (sleep_loop-Reached (ticks + n) ticks wakes h (omega arith))

-- Where the sum of the counter and n, both of 64 bits, exceeds 64 bits, `sleep_ticks` returns
-- without any sleep: the target has wrapped below the counter.
pub sleep_ticks_wraps :
    (n ticks : ℕ) (wakes : List ℕ)
    → n < 2 ^ 64
    → ticks < 2 ^ 64
    → 2 ^ 64 ≤ ticks + n
    → sleep_ticks n wakes ticks ≡ woken ticks wakes
unfolding sleep_ticks sleep_loop
sleep_ticks_wraps n ticks [] hn ht h = ground arith
sleep_ticks_wraps n ticks (k ∷ wakes) hn ht h = ground arith

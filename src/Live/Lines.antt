-- ===== src/Live/Lines.antt =====
-- `kbd_readline` on interrupts reads what it reads of the scancodes.
use feudos.Prelude.{
  ℕ, ◌+◌, ◌≡◌, ◌∙◌, ap, refl, sym, Bool, true, false, Option, none, some, List, [], ◌∷◌, ◌++◌,
  arith, if◌then◌else◌, ◌>>=◌,
}
use feudos.Io.{Device, Trace}
use feudos.Vga.{Screen}
use feudos.Timer.{ticked}
use feudos.System.Serving.{ticked-append}
use feudos.Keyboard
use feudos.Keyboard.{Keyboard, handle_all, line_ready, copy_line}
use feudos.Idt.{Kernel, resumed}
use feudos.Live.{Interrupt, Reading, waiting, line, stopped, tested, readline_loop, kbd_readline}
use feudos.Live.Delivery.{
  AllLines, scancodes, all_ports, served_ports, ticks_in, settled, deliver-handle_all,
}

-- The interrupts of each `hlt`: all of lines, their scancodes, and all of them in a row.
abbrev pub AllWakes : List (List Interrupt) → Type 0
AllWakes [] = Unit
AllWakes (is ∷ wakes) = AllLines is × AllWakes wakes

unfoldable pub wake_scancodes : Device → List (List Interrupt) → Trace → List (List ℕ)
wake_scancodes dev [] ports = []
wake_scancodes dev (is ∷ wakes) ports =
    scancodes dev is ports ∷ wake_scancodes dev wakes (all_ports dev is ports)

abbrev pub in_a_row : List (List Interrupt) → List Interrupt
in_a_row [] = []
in_a_row (is ∷ wakes) = is ++ in_a_row wakes

-- From `k` to `k'` the interrupts of the `hlt`s of `done` have come, the first of `wakes`.
pub record Passed (dev : Device) (wakes : List (List Interrupt)) (k k' : Kernel) : Type 0 where
  pub done : List (List Interrupt)
  pub rest : List (List Interrupt)
  pub split : done ++ rest ≡ wakes
  pub counted : k'.ticks ≡ ticked (ticks_in (in_a_row done)) k.ticks
  pub accessed : k'.ports ≡ all_ports dev (in_a_row done) k.ports

-- Readings of the same keyboard, screen and line, with the kernel's state in `P`.
abbrev pub Agrees : (Kernel → Type 0) → Option Reading → Option Keyboard.Reading → Type 0
Agrees P none none = Unit
Agrees P (some (waiting k)) (some (Keyboard.waiting kb s)) =
    (k.keyboard ≡ kb) × (k.screen ≡ s) × P k
Agrees P (some (line bytes n k)) (some (Keyboard.line bytes' n' kb s)) =
    (bytes ≡ bytes') × (n ≡ n') × (k.keyboard ≡ kb) × (k.screen ≡ s) × P k
Agrees P _ _ = ⊥

pub Agrees-mono :
    {P Q : Kernel → Type 0} (m : Option Reading) (n : Option Keyboard.Reading)
    → ((k : Kernel) → P k → Q k)
    → Agrees P m n
    → Agrees Q m n
Agrees-mono none none f a = a
Agrees-mono (some (waiting k)) (some (Keyboard.waiting kb s)) f (ek, es, p) = (ek, es, f k p)
Agrees-mono (some (line bytes m k)) (some (Keyboard.line bytes' n kb s)) f (eb, en, ek, es, p) =
    (eb, en, ek, es, f k p)
Agrees-mono none (some r) f a = absurd a
Agrees-mono (some (stopped k)) n f a = absurd a
Agrees-mono (some (waiting k)) none f a = absurd a
Agrees-mono (some (waiting k)) (some (Keyboard.line bytes n kb s)) f a = absurd a
Agrees-mono (some (line bytes n k)) none f a = absurd a
Agrees-mono (some (line bytes n k)) (some (Keyboard.waiting kb s)) f a = absurd a

ticks_in-append : (is js : List Interrupt) → ticks_in (is ++ js) ≡ ticks_in is + ticks_in js
unfolding ticks_in
ticks_in-append [] js = omega arith
ticks_in-append (i ∷ is) js = omega (arith, ticks_in-append is js)

all_ports-append :
    (dev : Device) (is js : List Interrupt) (ports : Trace)
    → all_ports dev (is ++ js) ports ≡ all_ports dev js (all_ports dev is ports)
unfolding all_ports
all_ports-append dev [] js ports = refl
all_ports-append dev (i ∷ is) js ports =
    all_ports-append dev is js (served_ports dev i.ctx.vector ports)

Passed-nil : (dev : Device) (wakes : List (List Interrupt)) (k : Kernel) → Passed dev wakes k k
unfolding ticked ticks_in all_ports
Passed-nil dev wakes k = record {
  done = [];
  rest = wakes;
  split = refl;
  counted = refl;
  accessed = refl;
}

-- After the interrupts of one `hlt`.
Passed-cons :
    (dev : Device) (is : List Interrupt) (wakes : List (List Interrupt)) (k k' : Kernel)
    (p : Keyboard × Screen)
    → Passed dev wakes (settled (ticks_in is) (all_ports dev is k.ports) k p) k'
    → Passed dev (is ∷ wakes) k k'
Passed-cons dev is wakes k k' p h = record {
  done = is ∷ h.done;
  rest = h.rest;
  split = ap (λ w. is ∷ w) h.split;
  counted =
      h.counted
      ∙ sym (ticked-append (ticks_in is) (ticks_in (in_a_row h.done)) k.ticks)
      ∙ ap (λ n. ticked n k.ticks) (sym (ticks_in-append is (in_a_row h.done)));
  accessed = h.accessed ∙ sym (all_ports-append dev is (in_a_row h.done) k.ports);
}

-- The test and the copy of a `hlt`.
tested-Agrees :
    (P : Kernel → Type 0) (ready : Option Bool) (copy : Option (List ℕ × ℕ)) (k : Kernel)
    (m : Option Reading) (n : Option Keyboard.Reading)
    → P k
    → Agrees P m n
    → Agrees P
        (do r ← ready; if r then (do (bytes, len) ← copy; some (line bytes len k)) else m)
        (do
          r ← ready
          if r
              then (do (bytes, len) ← copy; some (Keyboard.line bytes len k.keyboard k.screen))
              else n)
tested-Agrees P none copy k m n p a = tt
tested-Agrees P (some true) none k m n p a = tt
tested-Agrees P (some true) (some (bytes, len)) k m n p a = (refl, refl, refl, refl, p)
tested-Agrees P (some false) copy k m n p a = a

-- The rest of the loop behind one `hlt`.
after_hlt :
    (dev : Device) (start_pos : ℕ) (dst : List ℕ) (max : ℕ) (is : List Interrupt)
    (wakes : List (List Interrupt)) (k : Kernel) (live : Kernel → Option Reading)
    (old : Keyboard → Screen → Option Keyboard.Reading) (m : Option (Keyboard × Screen))
    → ((kb : Keyboard) (s : Screen)
        → let now = settled (ticks_in is) (all_ports dev is k.ports) k (kb, s) in
          Agrees (Passed dev wakes now) (live now) (old kb s))
    → Agrees
        (Passed dev (is ∷ wakes) k)
        (m
          >>= (λ p. some (resumed (settled (ticks_in is) (all_ports dev is k.ports) k p)))
          >>= tested start_pos dst max live)
        (do
          (k', t) ← m
          ready ← line_ready start_pos k'.kbd_buf
          if ready
              then (do
                (bytes, n) ← copy_line start_pos dst max k'.kbd_buf
                some (Keyboard.line bytes n k' t))
              else old k' t)
unfolding tested
after_hlt dev start_pos dst max is wakes k live old none next = tt
after_hlt dev start_pos dst max is wakes k live old (some (kb, s)) next =
    let now = settled (ticks_in is) (all_ports dev is k.ports) k (kb, s) in
    tested-Agrees (Passed dev (is ∷ wakes) k) (line_ready start_pos kb.kbd_buf)
      (copy_line start_pos dst max kb.kbd_buf) now _ _
      (Passed-cons dev is wakes k now (kb, s) (Passed-nil dev wakes now))
      (Agrees-mono _ _ (λ k' p. Passed-cons dev is wakes k k' (kb, s) p) (next kb s))

readline_loop-Agrees :
    (dev : Device) (start_pos : ℕ) (dst : List ℕ) (max : ℕ) (wakes : List (List Interrupt))
    (k : Kernel)
    → AllWakes wakes
    → Agrees (Passed dev wakes k) (readline_loop dev start_pos dst max wakes k) (
        Keyboard.readline_loop start_pos dst max
          (wake_scancodes dev wakes k.ports)
          k.keyboard
          k.screen)
unfolding readline_loop Keyboard.readline_loop wake_scancodes
readline_loop-Agrees dev start_pos dst max [] k h = (refl, refl, Passed-nil dev [] k)
readline_loop-Agrees dev start_pos dst max (is ∷ wakes) k (lines, h) =
    rw (deliver-handle_all dev is k lines) (
      after_hlt dev start_pos dst max is wakes k (readline_loop dev start_pos dst max wakes)
        (Keyboard.readline_loop start_pos dst max
          (wake_scancodes dev wakes (all_ports dev is k.ports)))
        (handle_all (scancodes dev is k.ports) k.keyboard k.screen)
        λ kb s.
          readline_loop-Agrees dev start_pos dst max wakes
            (settled (ticks_in is) (all_ports dev is k.ports) k (kb, s)) h)

-- On interrupts of the controllers' lines, `kbd_readline` faults, waits on or reads a line exactly
-- as it does on the scancodes that the keyboard's interrupts read, with the same keyboard and
-- screen; the counter has counted the timer's interrupts up to then, and the accesses to the ports
-- are those of the interrupts.
pub kbd_readline-Agrees :
    (dev : Device) (dst : List ℕ) (max : ℕ) (wakes : List (List Interrupt)) (k : Kernel)
    → AllWakes wakes
    → Agrees
        (Passed dev wakes k)
        (kbd_readline dev dst max wakes k)
        (Keyboard.kbd_readline dst max (wake_scancodes dev wakes k.ports) k.keyboard k.screen)
unfolding kbd_readline Keyboard.kbd_readline
kbd_readline-Agrees dev dst max wakes k h =
    readline_loop-Agrees dev k.keyboard.kbd_buf.pos dst max wakes k h

-- ===== src/System/Serving.antt =====
-- The running kernel: what the interrupts of the lines do together.
use feudos.Prelude.{
  ℕ, zero, suc, ◌+◌, ◌-◌, ◌≡◌, ◌≢◌, ◌∙◌, ap, refl, sym, some, List, [], ◌∷◌, ◌++◌, arith,
  Bool-cases, inl, inr, ◌==◌, if◌then◌else◌, bind-eq-some, ==_iff,
}
use feudos.Io.{Device, Trace, byte, got, inb}
use feudos.Timer.{timer_tick, ticked}
use feudos.Pic.{pic_send_eoi}
use feudos.Pic.Chips.{Chip, chip1}
use feudos.Pic.Masks.{pic_send_eoi-ended}
use feudos.Keyboard.{handle_all, kbd_handle_scancode}
use feudos.Keyboard.Keys.{Bytes, handle_all-append, handle_all-nil, handle_all-one}
use feudos.Idt.{IdtCtx, Kernel, resumed, keyboard_irq, interrupt_dispatch}
use feudos.Idt.Irq.{interrupt_dispatch-irq}
use feudos.System.{Serves, idle, serve, IsLine, scancodes_of, ticks_of}

-- What the interrupts of the lines leave: the scancodes are handled as the keyboard's functions
-- handle them one after the other, the ticks are counted, and as many ends of interrupt are sent to
-- the first controller.
pub record Served (start1 : Chip) (k : Kernel) (scs : List ℕ) (ticks count : ℕ) (k' : Kernel)
    : Type 0 where
  pub handled : handle_all scs k.keyboard k.screen ≡ some (k'.keyboard, k'.screen)
  pub counted : k'.ticks ≡ ticked ticks k.ticks
  pub ended : (chip1 start1 k'.ports).ended ≡ (chip1 start1 k.ports).ended + count
  pub bytes : Bytes scs

pub dispatch-keyboard :
    (dev : Device) (cr2 : ℕ) (ctx : IdtCtx) (k : Kernel)
    → ctx.vector ≡ 0x21
    → interrupt_dispatch dev cr2 ctx k ≡ keyboard_irq dev k
unfolding interrupt_dispatch
dispatch-keyboard dev cr2 ctx k h = rw h refl

-- The state that a keyboard's interrupt leaves.
keyboard_irq-inv :
    (dev : Device) (k t : Kernel)
    → keyboard_irq dev k ≡ some (resumed t)
    → let sc = byte (dev k.ports 0x60) in
      (kbd_handle_scancode sc k.keyboard k.screen ≡ some (t.keyboard, t.screen))
      × (t.ticks ≡ k.ticks)
      × (t.ports ≡ pic_send_eoi 1 (got 0x60 sc ∷ k.ports))
unfolding keyboard_irq inb
keyboard_irq-inv dev k t e =
    let sc = byte (dev k.ports 0x60) in
    let ((kb, s), eh, er) = bind-eq-some (kbd_handle_scancode sc k.keyboard k.screen) _ e in
    let f : record k { screen = s; keyboard = kb; ports = pic_send_eoi 1 (got 0x60 sc ∷ k.ports) }
        ≡ t =
      cc er in
    rw (← f) (eh, refl, refl)

eoi-ended :
    (start1 : Chip) (irq : ℕ) (tr : Trace)
    → (chip1 start1 (pic_send_eoi irq tr)).ended ≡ (chip1 start1 tr).ended + 1
eoi-ended start1 irq tr =
    ap (λ (c : Chip). c.ended) (pic_send_eoi-ended start1 start1 irq tr).0 ∙ omega arith

-- The state that any other line's interrupt leaves.
abbrev others_step : IdtCtx → Kernel → Kernel
others_step ctx k = record k {
  ticks = if ctx.vector == 0x20 then timer_tick k.ticks else k.ticks;
  ports = pic_send_eoi (ctx.vector - 0x20) k.ports;
}

pub ticks_of-ticked :
    (vector ticks : ℕ)
    → (if vector == 0x20 then timer_tick ticks else ticks) ≡ ticked (ticks_of vector) ticks
unfolding ticked
ticks_of-ticked vector ticks = elim (Bool-cases (vector == 0x20)) [
  | inl e ↦ rw e refl
  | inr e ↦ rw e refl
]

Served-one :
    (dev : Device) (start1 : Chip) (cr2 : ℕ) (ctx : IdtCtx) (k t : Kernel)
    → IsLine ctx.vector
    → interrupt_dispatch dev cr2 ctx k ≡ some (resumed t)
    → Served start1 k (scancodes_of dev ctx.vector k) (ticks_of ctx.vector) 1 t
unfolding ticked
Served-one dev start1 cr2 ctx k t (lo, hi) e = elim (Bool-cases (ctx.vector == 0x21)) [
  | inl key ↦
      let v : ctx.vector ≡ 0x21 = (==_iff _ _).0 key in
      let (eh, et, ep) = keyboard_irq-inv dev k t (sym (dispatch-keyboard dev cr2 ctx k v) ∙ e) in
      rw v (record {
        handled = handle_all-one _ k.keyboard k.screen ∙ eh;
        counted = et;
        ended =
            ap (λ p. (chip1 start1 p).ended) ep
            ∙ eoi-ended start1 1 (got 0x60 (byte (dev k.ports 0x60)) ∷ k.ports);
        bytes = (omega arith, tt);
      })
  | inr other ↦
      let ne : ctx.vector ≢ 0x21 = λ v. ground arith in
      let f : others_step ctx k ≡ t =
        cc (sym (interrupt_dispatch-irq dev cr2 ctx k lo hi ne) ∙ e) in
      rw (other, ← f)
        (record {
          handled = handle_all-nil k.keyboard k.screen;
          counted = ticks_of-ticked ctx.vector k.ticks;
          ended = eoi-ended start1 (ctx.vector - 0x20) k.ports;
          bytes = tt;
        })
]

pub ticked-append : (n m ticks : ℕ) → ticked (n + m) ticks ≡ ticked m (ticked n ticks)
unfolding ticked
ticked-append zero m ticks = let e : 0 + m ≡ m = omega arith in rw e refl
ticked-append (suc n) m ticks =
    let e : suc n + m ≡ suc (n + m) = omega arith in rw e (ticked-append n m (timer_tick ticks))

pub Bytes-append : (xs ys : List ℕ) → Bytes xs → Bytes ys → Bytes (xs ++ ys)
Bytes-append [] ys h k = k
Bytes-append (x ∷ xs) ys h k = (h.0, Bytes-append xs ys h.1 k)

Served-append :
    {start1 : Chip} {k t u : Kernel} {scs rest : List ℕ} {ticks more count many : ℕ}
    → Served start1 k scs ticks count t
    → Served start1 t rest more many u
    → Served start1 k (scs ++ rest) (ticks + more) (count + many) u
Served-append {k = k} {scs = scs} {rest = rest} {ticks = ticks} {more = more} a b = record {
  handled = handle_all-append scs rest k.keyboard k.screen ∙ rw a.handled b.handled;
  counted = b.counted ∙ ap (ticked more) a.counted ∙ sym (ticked-append ticks more k.ticks);
  ended = omega (arith, a.ended, b.ended);
  bytes = Bytes-append scs rest a.bytes b.bytes;
}

-- Interrupts of the controllers' lines, in any order, do to the keyboard and the screen what
-- the scancodes read do one after the other, count the timer's ticks, and end as many interrupts at
-- the first controller as there were; all scancodes are bytes.
pub Serves-Served :
    (dev : Device) (start1 : Chip) {k k' : Kernel} {scs : List ℕ} {ticks count : ℕ}
    → Serves dev k scs ticks count k'
    → Served start1 k scs ticks count k'
Serves-Served dev start1 {k = k} idle = record {
  handled = handle_all-nil k.keyboard k.screen;
  counted = unfold ticked in refl;
  ended = omega arith;
  bytes = tt;
}
Serves-Served dev start1 (serve cr2 ctx line e rest) =
    Served-append (Served-one dev start1 cr2 ctx _ _ line e) (Serves-Served dev start1 rest)

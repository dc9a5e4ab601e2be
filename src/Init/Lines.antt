-- ===== src/Init/Lines.antt =====
-- arch/x86_64/init.c: the request lines after the set-up of the controllers.
use feudos.Prelude.{
  ℕ, ◌<◌, ◌≡◌, refl, Bool, true, false, not, ◌&&◌, ◌||◌, ◌==◌, arith, Yields, Yields-bind,
  Yields-mono,
}
use feudos.Io.{Trace, Device}
use feudos.Pic.Chips.{Chip, mask_byte, chip1, chip2, masked, ReadsMasks}
use feudos.Pic.Setup.{IsSetUp, pic_remap-IsSetUp}
use feudos.Pic.Pit.{Pit, Beats, pit, started-Beats}
use feudos.Pic.Masks.{Ready, pic_set_mask-masked, pic_clear_mask-masked}
use feudos.Pic.{pic_remap, pit_init, pic_set_mask, pic_clear_mask}
use feudos.Timer.{timer_freq}
use feudos.Init.{init_pic}

-- A line that was masked and then unmasked.
unmasked_after : (a b c : Bool) → (not a && (not b && (b || c))) ≡ (not a && (not b && c))
unmasked_after a true c = refl
unmasked_after a false c = refl

module _ (dev : Device) (start1 start2 : Chip) (reads : ReadsMasks dev start1 start2)
    (byte1 : start1.mask < 256) (byte2 : start2.mask < 256) where
  abbrev now : Trace → ℕ → Bool
  now tr = masked (chip1 start1 tr) (chip2 start2 tr)

  -- The timer's ports are not the controllers'.
  pit_init-Ready :
      (tr : Trace)
      → Ready start1 start2 tr
      → Yields
          (λ t. Ready start1 start2 t × ((i : ℕ) → now t i ≡ now tr i))
          (pit_init timer_freq tr)
  unfolding pit_init feudos.Io.outb
  pit_init-Ready tr r = (_, refl, (r, λ i. refl))

  -- Where the controllers are ready and read as their masks, which are bytes, the set-up unmasks
  -- the lines of the timer and the keyboard, leaves the others as they were, and leaves both
  -- controllers ready.
  pub init_pic-masked :
      (tr : Trace)
      → Ready start1 start2 tr
      → Yields
          (λ t.
            Ready start1 start2 t
            × ((i : ℕ) → i < 16 → now t i ≡ not (i == 1) && (not (i == 0) && now tr i)))
          (init_pic dev tr)
  unfolding init_pic
  init_pic-masked tr (a1, a2) =
      let (s1, s2) = pic_remap-IsSetUp dev start1 start2 reads byte1 byte2 tr a1 a2 in
      let kept : (i : ℕ) → now (pic_remap dev tr) i ≡ now tr i =
        λ i. rw (s1.mask_eq, s2.mask_eq) refl in
      Yields-bind _ _ (pit_init-Ready (pic_remap dev tr) (s1.awaits, s2.awaits)) λ t1 (r1, e1).
        Yields-bind _ _
          (pic_set_mask-masked dev start1 start2 reads byte1 byte2 0 t1 (omega arith) r1)
          λ t2 (r2, e2).
            Yields-bind _ _
              (pic_clear_mask-masked dev start1 start2 reads byte1 byte2 0 t2 (omega arith) r2)
              λ t3 (r3, e3).
                Yields-mono _
                  (pic_clear_mask-masked dev start1 start2 reads byte1 byte2 1 t3 (omega arith) r3)
                  λ t (r, e). (
                    r,
                    λ i h.
                        rw (e i h, e3 i h, e2 i h, e1 i, kept i)
                          (unmasked_after (i == 1) (i == 0) (now tr i)),
                  )

-- Whatever the chips are before, the set-up makes the controllers deliver at the vectors 0x20 and 0x28,
-- the second behind line 2 of the first, and starts counter 0 at 1193180 / TIMER_FREQ.
pub init_pic-programs :
    (dev : Device) (tr : Trace)
    → Yields
        (λ t.
          ((start : Chip) → IsSetUp (chip1 start t) 0x20 4 (chip1 start t).mask)
          × ((start : Chip) → IsSetUp (chip2 start t) 0x28 2 (chip2 start t).mask)
          × ((start : Pit) → Beats timer_freq (pit start t)))
        (init_pic dev tr)
unfolding init_pic pit_init pic_remap pic_set_mask pic_clear_mask feudos.Io.outb feudos.Io.inb
    feudos.Io.io_wait
init_pic-programs dev tr =
    let set : (c : Chip) (offset cascade : ℕ)
        → c.awaits ≡ mask_byte
        → c.offset ≡ offset
        → c.cascade ≡ cascade
        → c.mode ≡ 1
        → IsSetUp c offset cascade c.mask =
      λ c o s a b d e. record {
        awaits = a;
        offset_eq = b;
        cascade_eq = d;
        mode_eq = e;
        mask_eq = refl;
      } in
    (
      _,
      refl,
      (
        λ start. set _ _ _ refl refl refl refl,
        λ start. set _ _ _ refl refl refl refl,
        λ start. started-Beats timer_freq (omega arith) (omega arith),
      ),
    )

-- ===== src/Pic/Masks.antt =====
-- arch/x86_64/pic.c, the masks and the end of interrupt, on the controllers.
use Prim.Native.Nat.{bit_and, bit_or}
use feudos.Prelude.{
  true, ℕ, suc, ◌-◌, ◌<◌, ◌≡◌, refl, ap, ◌∙◌, Bool, Bool-cases, inl, inr, not, ◌&&◌, ◌||◌, false,
  Option, some, check, lt→ltb, ltb→lt, ne→==false, sym, ◌≤◌, ◌^◌, ◌∷◌, ltb, leb, arith, ◌==◌,
  Yields, if◌then◌else◌,
}
use feudos.Io.{Trace, Device, got, wrote, byte, outb, inb}
use feudos.Vga.{bit_set}
use feudos.Pic.{
  pic1_cmd, pic1_data, pic2_cmd, pic2_data, mask_port, mask_line, pic_set_mask, pic_clear_mask,
  pic_send_eoi,
}
use feudos.Pic.Bits.{bit_set-or, bit_set-and_not}
use feudos.Pic.Chips.{Chip, mask_byte, chip1, chip2, masked, ReadsMasks, chip-mask}

-- Both controllers await a mask.
abbrev pub Ready : Chip → Chip → Trace → Type 0
Ready start1 start2 tr =
    ((chip1 start1 tr).awaits ≡ mask_byte) × ((chip2 start2 tr).awaits ≡ mask_byte)

-- A write to a data port replaces the masks of its eight lines.
masked-write1 :
    (start1 start2 : Chip) (v i : ℕ) (tr : Trace)
    → Ready start1 start2 tr
    → Ready start1 start2 (wrote pic1_data v ∷ tr)
      × (masked (chip1 start1 (wrote pic1_data v ∷ tr)) (chip2 start2 (wrote pic1_data v ∷ tr)) i
          ≡ (if ltb i 8 then bit_set (byte v) i else masked (chip1 start1 tr) (chip2 start2 tr) i))
masked-write1 start1 start2 v i tr (a1, a2) = rw a1 ((refl, a2), ground arith)

masked-write2 :
    (start1 start2 : Chip) (v i : ℕ) (tr : Trace)
    → Ready start1 start2 tr
    → Ready start1 start2 (wrote pic2_data v ∷ tr)
      × (masked (chip1 start1 (wrote pic2_data v ∷ tr)) (chip2 start2 (wrote pic2_data v ∷ tr)) i
          ≡ (if ltb i 8
              then masked (chip1 start1 tr) (chip2 start2 tr) i
              else bit_set (byte v) (i - 8)))
masked-write2 start1 start2 v i tr (a1, a2) = rw a2 ((a1, refl), ground arith)

byte_thrice : (n : ℕ) → byte (byte (byte n)) ≡ byte n
byte_thrice n = omega arith

-- The shape of the two functions: `op` makes the new mask of the read one.
update_mask : (ℕ → ℕ → ℕ) → Device → ℕ → Trace → Option Trace
update_mask op dev l tr = check (ltb (mask_line l) 31) (
    let (read, t) = inb dev (mask_port l) tr in
    some (outb (mask_port l) (byte (op read (2 ^ mask_line l))) t))

module _ (dev : Device) (start1 start2 : Chip) (reads : ReadsMasks dev start1 start2)
    (byte1 : start1.mask < 256) (byte2 : start2.mask < 256) where
  abbrev now : Trace → ℕ → Bool
  now tr = masked (chip1 start1 tr) (chip2 start2 tr)

  module _ (op : ℕ → ℕ → ℕ) (bit : Bool → Bool → Bool)
      (law : (v l i : ℕ)
        → v < 256
        → l < 8
        → i < 8
        → bit_set (byte (op v (2 ^ l))) i ≡ bit (i == l) (bit_set v i))
      (others : (b : Bool) → bit false b ≡ b) where
    -- The bits of the new mask, on the lines of the first controller and on those of the second.
    low :
        (l i : ℕ) (tr : Trace)
        → l < 8
        → Ready start1 start2 tr
        → (if ltb i 8
            then bit_set (byte (byte (byte (op (byte (dev tr pic1_data)) (2 ^ l))))) i
            else now tr i)
          ≡ bit (i == l) (now tr i)
    low l i tr hl (a1, a2) =
        let m = chip-mask pic1_cmd pic1_data start1 tr byte1 in
        let read : byte (dev tr pic1_data) ≡ (chip1 start1 tr).mask =
          omega (arith, m, reads.reads1 tr a1) in
        elim (Bool-cases (ltb i 8)) [
          | inl e ↦
              rw (e, read, byte_thrice (op (chip1 start1 tr).mask (2 ^ l)))
                (law (chip1 start1 tr).mask l i m hl (ltb→lt i 8 e))
          | inr e ↦ rw (e, ne→==false i l (ground arith)) (sym (others _))
        ]

    high :
        (l i : ℕ) (tr : Trace)
        → 8 ≤ l
        → l < 16
        → i < 16
        → Ready start1 start2 tr
        → (if ltb i 8
            then now tr i
            else bit_set (byte (byte (byte (op (byte (dev tr pic2_data)) (2 ^ (l - 8)))))) (i - 8))
          ≡ bit (i == l) (now tr i)
    high l i tr lo hl hi (a1, a2) =
        let m = chip-mask pic2_cmd pic2_data start2 tr byte2 in
        let read : byte (dev tr pic2_data) ≡ (chip2 start2 tr).mask =
          omega (arith, m, reads.reads2 tr a2) in
        elim (Bool-cases (ltb i 8)) [
          | inl e ↦ rw (e, ne→==false i l (ground arith)) (sym (others _))
          | inr e ↦
              rw (e, read, byte_thrice (op (chip2 start2 tr).mask (2 ^ (l - 8))))
                (law (chip2 start2 tr).mask (l - 8) (i - 8) m (omega arith) (omega arith)
                  ∙ ap (λ b. bit b (bit_set (chip2 start2 tr).mask (i - 8))) (ground arith))
        ]

    update_mask-masked :
        (l : ℕ) (tr : Trace)
        → l < 16
        → Ready start1 start2 tr
        → Yields
            (λ t. Ready start1 start2 t × ((i : ℕ) → i < 16 → now t i ≡ bit (i == l) (now tr i)))
            (update_mask op dev l tr)
    unfolding update_mask outb inb
    update_mask-masked l tr h r =
        let t1 = got pic1_data (byte (dev tr pic1_data)) ∷ tr in
        let t2 = got pic2_data (byte (dev tr pic2_data)) ∷ tr in
        let w1 = masked-write1 start1 start2 (byte (byte (op (byte (dev tr pic1_data)) (2 ^ l)))) in
        let w2 =
          masked-write2 start1 start2 (byte (byte (op (byte (dev tr pic2_data)) (2 ^ (l - 8))))) in
        elim (Bool-cases (ltb l 8)) [
          | inl e ↦
              rw (e, lt→ltb l 31 (omega arith))
                (_, refl, ((w1 0 t1 r).0, λ i hi. (w1 i t1 r).1 ∙ low l i tr (ltb→lt l 8 e) r))
          | inr e ↦
              rw (e, lt→ltb (l - 8) 31 (omega arith))
                (
                  _,
                  refl,
                  ((w2 0 t2 r).0, λ i hi. (w2 i t2 r).1 ∙ high l i tr (ground arith) h hi r),
                )
        ]

  -- Where the controllers are ready and read as their masks, which are bytes, `pic_set_mask` of
  -- one of the sixteen lines masks that line and leaves the others, and both controllers stay
  -- ready.
  pub pic_set_mask-masked :
      (irq_line : ℕ) (tr : Trace)
      → irq_line < 16
      → Ready start1 start2 tr
      → Yields
          (λ t. Ready start1 start2 t × ((i : ℕ) → i < 16 → now t i ≡ i == irq_line || now tr i))
          (pic_set_mask dev irq_line tr)
  unfolding pic_set_mask update_mask
  pic_set_mask-masked = update_mask-masked bit_or ◌||◌ bit_set-or (λ b. refl)

  -- Where the controllers are ready and read as their masks, which are bytes, `pic_clear_mask` of
  -- one of the sixteen lines unmasks that line and leaves the others, and both controllers stay
  -- ready.
  pub pic_clear_mask-masked :
      (irq_line : ℕ) (tr : Trace)
      → irq_line < 16
      → Ready start1 start2 tr
      → Yields
          (λ t.
            Ready start1 start2 t × ((i : ℕ) → i < 16 → now t i ≡ not (i == irq_line) && now tr i))
          (pic_clear_mask dev irq_line tr)
  unfolding pic_clear_mask update_mask
  pic_clear_mask-masked =
      update_mask-masked (λ v m. bit_and v (2 ^ 32 - 1 - m)) (λ s b. not s && b) bit_set-and_not
        (λ b. refl)

-- `pic_send_eoi` ends one interrupt at the first controller, and one at the second too exactly
-- for the lines from 8 on; masks and set-up stay.
pub pic_send_eoi-ended :
    (start1 start2 : Chip) (irq : ℕ) (tr : Trace)
    → let c1 = chip1 start1 tr in
      let c2 = chip2 start2 tr in
      (chip1 start1 (pic_send_eoi irq tr) ≡ record c1 { ended = suc c1.ended })
      × (chip2 start2 (pic_send_eoi irq tr)
          ≡ (if ltb irq 8 then c2 else record c2 { ended = suc c2.ended }))
unfolding pic_send_eoi outb
pic_send_eoi-ended start1 start2 irq tr = elim (Bool-cases (leb 8 irq)) [
  | inl e ↦ let f : ltb irq 8 ≡ false = ground arith in rw (e, f) (refl, refl)
  | inr e ↦ let f : ltb irq 8 ≡ true = ground arith in rw (e, f) (refl, refl)
]

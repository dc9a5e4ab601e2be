-- ===== src/Pic/Setup.antt =====
-- arch/x86_64/pic.c, `pic_remap`: the state of the controllers after it.
use feudos.Prelude.{ℕ, ◌≡◌, ◌<◌, ◌∷◌, refl, arith}
use feudos.Io.{Trace, Device, got, byte, outb, inb, io_wait}
use feudos.Pic.{pic1_cmd, pic2_cmd, pic1_data, pic2_data, pic_remap}
use feudos.Pic.Chips.{Chip, mask_byte, chip1, chip2, ReadsMasks, chip-mask}

-- A controller that is set up for the 8086 mode.
pub record IsSetUp (c : Chip) (offset cascade mask : ℕ) : Type 0 where
  pub awaits : c.awaits ≡ mask_byte
  pub offset_eq : c.offset ≡ offset
  pub cascade_eq : c.cascade ≡ cascade
  pub mode_eq : c.mode ≡ 1
  pub mask_eq : c.mask ≡ mask

module _ (dev : Device) (start1 start2 : Chip) (reads : ReadsMasks dev start1 start2)
    (byte1 : start1.mask < 256) (byte2 : start2.mask < 256) where
  -- Where the controllers read as their masks, which are bytes, and await a mask, `pic_remap` sets
  -- both up for the 8086 mode, at the vectors 0x20 and 0x28, the second behind line 2 of the
  -- first, and keeps their masks.
  pub pic_remap-IsSetUp :
      (tr : Trace)
      → (chip1 start1 tr).awaits ≡ mask_byte
      → (chip2 start2 tr).awaits ≡ mask_byte
      → IsSetUp (chip1 start1 (pic_remap dev tr)) 0x20 4 (chip1 start1 tr).mask
        × IsSetUp (chip2 start2 (pic_remap dev tr)) 0x28 2 (chip2 start2 tr).mask
  unfolding pic_remap outb inb io_wait
  pic_remap-IsSetUp tr a1 a2 =
      let m1 = chip-mask pic1_cmd pic1_data start1 tr byte1 in
      let m2 = chip-mask pic2_cmd pic2_data start2 tr byte2 in
      let r1 = reads.reads1 tr a1 in
      let r2 = reads.reads2 (got pic1_data (byte (dev tr pic1_data)) ∷ tr) a2 in
      (
        record {
          awaits = refl;
          offset_eq = refl;
          cascade_eq = refl;
          mode_eq = refl;
          mask_eq = omega (arith, m1, r1);
        },
        record {
          awaits = refl;
          offset_eq = refl;
          cascade_eq = refl;
          mode_eq = refl;
          mask_eq = omega (arith, m2, r2);
        },
      )

-- ===== src/Pic/Chips.antt =====
-- The interrupt controllers as arch/x86_64/pic.c drives them: what the written bytes mean.
-- A command byte with bit 4 starts an initialisation, whose next three bytes on the data port are
-- the vector offset, the cascade and the mode; any other byte on the data port is the mask.
use Prim.Native.Nat.{bit_and}
use feudos.Prelude.{
  ℕ, suc, ◌-◌, Bool, [], ◌∷◌, ltb, ◌==◌, if◌then◌else◌, ◌≡◌, ◌<◌, arith, Bool-cases, inl, inr,
}
use feudos.Io.{Access, wrote, got, Trace, Device, byte}
use feudos.Vga.{bit_set}
use feudos.Pic.{pic1_cmd, pic1_data, pic2_cmd, pic2_data}

-- The byte that a controller takes on its data port.
pub data Awaits : Type 0 where
  mask_byte offset_byte cascade_byte mode_byte : Awaits

-- `ended` counts the ends of interrupt.
pub record Chip : Type 0 where
  pub awaits : Awaits
  pub offset : ℕ
  pub cascade : ℕ
  pub mode : ℕ
  pub mask : ℕ
  pub ended : ℕ

abbrev pub command : ℕ → Chip → Chip
command v c =
    if bit_and v 0x10 == 0x10
    then record c { awaits = offset_byte; mask = 0 }
    else if v == 0x20
    then record c { ended = suc c.ended }
    else c

abbrev pub data_byte : ℕ → Awaits → Chip → Chip
data_byte v mask_byte c = record c { mask = v }
data_byte v offset_byte c = record c { awaits = cascade_byte; offset = v }
data_byte v cascade_byte c = record c { awaits = mode_byte; cascade = v }
data_byte v mode_byte c = record c { awaits = mask_byte; mode = v }

-- A controller with a command and a data port, after an access.
abbrev pub chip_step : ℕ → ℕ → Access → Chip → Chip
chip_step cmd dat (got port v) c = c
chip_step cmd dat (wrote port v) c =
    if port == cmd then command v c else if port == dat then data_byte (byte v) c.awaits c else c

-- A controller after the accesses of a trace, from its state at power on.
abbrev pub chip : ℕ → ℕ → Chip → Trace → Chip
chip cmd dat start [] = start
chip cmd dat start (a ∷ tr) = chip_step cmd dat a (chip cmd dat start tr)

abbrev pub chip1 : Chip → Trace → Chip
chip1 = chip pic1_cmd pic1_data

abbrev pub chip2 : Chip → Trace → Chip
chip2 = chip pic2_cmd pic2_data

-- Whether a request line of the sixteen is masked.
abbrev pub masked : Chip → Chip → ℕ → Bool
masked c1 c2 irq = if ltb irq 8 then bit_set c1.mask irq else bit_set c2.mask (irq - 8)

-- A device whose data ports read as the masks, wherever they await a mask.
pub record ReadsMasks (dev : Device) (start1 start2 : Chip) : Type 0 where
  pub reads1 :
      (tr : Trace)
      → (chip1 start1 tr).awaits ≡ mask_byte
      → dev tr pic1_data ≡ (chip1 start1 tr).mask
  pub reads2 :
      (tr : Trace)
      → (chip2 start2 tr).awaits ≡ mask_byte
      → dev tr pic2_data ≡ (chip2 start2 tr).mask

command-mask : (v : ℕ) (c : Chip) → c.mask < 256 → (command v c).mask < 256
command-mask v c h = ground arith

data_byte-mask :
    (v : ℕ) (a : Awaits) (c : Chip) → v < 256 → c.mask < 256 → (data_byte v a c).mask < 256
data_byte-mask v mask_byte c hv h = hv
data_byte-mask v offset_byte c hv h = h
data_byte-mask v cascade_byte c hv h = h
data_byte-mask v mode_byte c hv h = h

-- A mask stays a byte.
pub chip-mask :
    (cmd dat : ℕ) (start : Chip) (tr : Trace)
    → start.mask < 256
    → (chip cmd dat start tr).mask < 256
chip-mask cmd dat start [] h = h
chip-mask cmd dat start (got port v ∷ tr) h = chip-mask cmd dat start tr h
chip-mask cmd dat start (wrote port v ∷ tr) h =
    let c = chip cmd dat start tr in
    let ih : c.mask < 256 = chip-mask cmd dat start tr h in
    elim (Bool-cases (port == cmd)) [
      | inl e ↦ rw e (command-mask v c ih)
      | inr e ↦ elim (Bool-cases (port == dat)) [
        | inl d ↦ rw (e, d) (data_byte-mask (byte v) c.awaits c (omega arith) ih)
        | inr d ↦ rw (e, d) ih
      ]
    ]

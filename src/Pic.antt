-- ===== src/Pic.antt =====
-- arch/x86_64/pic.c: the two interrupt controllers and the interval timer.
-- The proofs are in the modules below.
pub mod Chips
pub mod Bits
pub mod Masks
pub mod Setup
pub mod Pit
pub mod Sample
mod Tests
use Prim.Native.Nat.{bit_and, bit_or}
use feudos.Prelude.{
  ℕ, ◌-◌, ◌/◌, ◌%◌, ◌^◌, Bool, Option, some, ltb, leb, ◌==◌, if◌then◌else◌, ◌>>=◌, check,
}
use feudos.Io.{Trace, Device, byte, outb, inb, io_wait}

abbrev pub pic1_cmd : ℕ
pic1_cmd = 0x20

abbrev pub pic1_data : ℕ
pic1_data = 0x21

abbrev pub pic2_cmd : ℕ
pic2_cmd = 0xA0

abbrev pub pic2_data : ℕ
pic2_data = 0xA1

abbrev pub pic1_offset : ℕ
pic1_offset = 0x20

abbrev pub pic2_offset : ℕ
pic2_offset = 0x28

abbrev pub icw1_icw4 : ℕ
icw1_icw4 = 0x01

abbrev pub icw1_init : ℕ
icw1_init = 0x10

abbrev pub icw4_8086 : ℕ
icw4_8086 = 0x01

abbrev pub pic_eoi : ℕ
pic_eoi = 0x20

unfoldable pub pic_remap : Device → Trace → Trace
pic_remap dev tr =
    let (mask1, t1) = inb dev pic1_data tr in
    let (mask2, t2) = inb dev pic2_data t1 in
    let t3 = io_wait (outb pic1_cmd (bit_or icw1_init icw1_icw4) t2) in
    let t4 = io_wait (outb pic2_cmd (bit_or icw1_init icw1_icw4) t3) in
    let t5 = io_wait (outb pic1_data pic1_offset t4) in
    let t6 = io_wait (outb pic2_data pic2_offset t5) in
    let t7 = io_wait (outb pic1_data 0x04 t6) in
    let t8 = io_wait (outb pic2_data 0x02 t7) in
    let t9 = io_wait (outb pic1_data icw4_8086 t8) in
    let t10 = io_wait (outb pic2_data icw4_8086 t9) in
    outb pic2_data mask2 (outb pic1_data mask1 t10)

unfoldable pub pic_send_eoi : ℕ → Trace → Trace
pic_send_eoi irq tr = outb pic1_cmd pic_eoi (if leb 8 irq then outb pic2_cmd pic_eoi tr else tr)

-- The port and the line of a request line.
abbrev pub mask_port : ℕ → ℕ
mask_port irq_line = if ltb irq_line 8 then pic1_data else pic2_data

abbrev pub mask_line : ℕ → ℕ
mask_line irq_line = if ltb irq_line 8 then irq_line else irq_line - 8

-- `1 << line` is undefined where an `int` does not hold it.
unfoldable pub pic_set_mask : Device → ℕ → Trace → Option Trace
pic_set_mask dev irq_line tr = check (ltb (mask_line irq_line) 31) (
    let (read, t) = inb dev (mask_port irq_line) tr in
    let value = byte (bit_or read (2 ^ mask_line irq_line)) in
    some (outb (mask_port irq_line) value t))

-- `~` is on 32 bits.
unfoldable pub pic_clear_mask : Device → ℕ → Trace → Option Trace
pic_clear_mask dev irq_line tr = check (ltb (mask_line irq_line) 31) (
    let (read, t) = inb dev (mask_port irq_line) tr in
    let value = byte (bit_and read (2 ^ 32 - 1 - 2 ^ mask_line irq_line)) in
    some (outb (mask_port irq_line) value t))

-- A division by a frequency of 0 faults.
unfoldable pub pit_init : ℕ → Trace → Option Trace
pit_init freq tr = check (ltb 0 freq) (
    let divisor = 1193180 / freq in
    some (
      outb 0x40 (bit_and (divisor / 2 ^ 8) 0xFF)
        (outb 0x40 (bit_and divisor 0xFF) (outb 0x43 0x36 tr))))

-- ===== src/Serial.antt =====
-- arch/x86_64/serial.c: the serial port.
-- The proofs are in the modules below.
pub mod Uart
pub mod Sending
pub mod Hex
mod Tests
use Prim.Native.Nat.{bit_and}
use feudos.Prelude.{
  ℕ, zero, suc, ◌+◌, ◌-◌, ◌*◌, ◌/◌, ◌%◌, ◌^◌, Option, none, some, List, [], ◌∷◌, ltb, ◌==◌,
  if◌then◌else◌, replicate, ◌>>=◌, store, for_range,
}
use feudos.Str.{c_string}
use feudos.Io.{Trace, Device, outb, inb}

abbrev pub com1 : ℕ
com1 = 0x3F8

unfoldable pub serial_init : Trace → Trace
serial_init tr =
    let t1 = outb (com1 + 1) 0x00 tr in
    let t2 = outb (com1 + 3) 0x80 t1 in
    let t3 = outb (com1 + 0) 0x03 t2 in
    let t4 = outb (com1 + 1) 0x00 t3 in
    let t5 = outb (com1 + 3) 0x03 t4 in let t6 = outb (com1 + 2) 0xC7 t5 in outb (com1 + 4) 0x0B t6

unfoldable pub serial_tx_empty : Device → Trace → ℕ × Trace
serial_tx_empty dev tr = let (status, t) = inb dev (com1 + 5) tr in (bit_and status 0x20, t)

-- while (!serial_tx_empty()); `none` where the port is still busy after `polls` rounds.
unfoldable pub serial_wait : ℕ → Device → Trace → Option Trace
serial_wait zero dev tr = none
serial_wait (suc polls) dev tr =
    let (empty, t) = serial_tx_empty dev tr in
    let rest = serial_wait polls dev t in if empty == 0 then rest else some t

-- Each wait has `polls` rounds.
unfoldable pub serial_print : ℕ → Device → List ℕ → Trace → Option Trace
serial_print polls dev [] tr = none
serial_print polls dev (c ∷ s) tr =
    if c == 0
    then some tr
    else (do t ← serial_wait polls dev tr; serial_print polls dev s (outb com1 c t))

-- A digit of the loop of `serial_print_hex`, as a character.
unfoldable pub hex_char : ℕ → ℕ
hex_char nib = if ltb nib 10 then b'0' + nib else b'A' + nib - 10

unfoldable pub hex_buffer : ℕ → Option (List ℕ)
hex_buffer val = do
  buf ←
      for_range 16 0 (λ i buf. store buf i (hex_char (val / 2 ^ ((15 - i) * 4) % 2 ^ 4)))
        (replicate 17 0)
  store buf 16 0

unfoldable pub serial_print_hex : ℕ → Device → ℕ → Trace → Option Trace
serial_print_hex polls dev val tr = do
  t ← serial_print polls dev (c_string "0x") tr
  buf ← hex_buffer val
  serial_print polls dev buf t

-- ===== src/Serial/Tests.antt =====
-- The serial port on concrete bytes, and the theorems on arch/x86_64/serial.c at an input.
use feudos.Prelude.{
  ℕ, suc, ◌≡◌, refl, false, some, List, [], ◌++◌, arith, length, Yields, for_range, ◌>>=◌,
  Bool-cases, inl, inr, ◌==◌, if◌then◌else◌, ◌%◌,
}
use feudos.Str.{codes}
use feudos.Io.{Device, inb, outb}
use feudos.Printf.Numeral.{of_text}
use feudos.Serial.{
  serial_init, serial_print_hex, hex_buffer, hex_char, serial_print, serial_wait, serial_tx_empty,
}
use feudos.Serial.Uart.{Uart, uart}
use feudos.Serial.Sending.{Answers, Sends, and_sent}
use feudos.Serial.Hex.{serial_print_hex-reads}

abbrev cold : Uart
cold = record {
  divisor_low = 12;
  divisor_high = 0;
  interrupts = 1;
  fifo = 0;
  line_control = 0x1B;
  modem_control = 0;
  sent = [];
}

-- A port that is busy at every other access.
abbrev slow : Device
slow tr port = if length tr % 2 == 0 then 0x00 else 0x60

slow-Answers : Answers slow 2
slow-Answers tr = elim (Bool-cases (length tr % 2 == 0)) [
  | inl e ↦
      λ h. let odd : suc (length tr) % 2 == 0 ≡ false = ground arith in rw odd (λ k. absurd (cc k))
  | inr e ↦ rw e (λ h. absurd (cc h))
]

hex_example :
    (serial_print_hex 2 slow 0xDEADBEEF (serial_init []) >>= λ t. some (uart cold t).sent)
    ≡ some (codes "0x00000000DEADBEEF")
unfolding serial_print_hex hex_buffer hex_char serial_print serial_wait serial_tx_empty serial_init
    inb outb for_range
hex_example = refl

serial_print_hex-reads_example :
    Yields
      (λ t.
        (ds : List ℕ) × (length ds ≡ 16)
        × (of_text 16 0 ds ≡ 0xDEADBEEF)
        × Sends slow (codes "0x" ++ ds) (serial_init []) t
        × (uart cold t ≡ and_sent (codes "0x" ++ ds) (uart cold (serial_init []))))
      (serial_print_hex 2 slow 0xDEADBEEF (serial_init []))
serial_print_hex-reads_example =
    serial_print_hex-reads slow cold 2 0xDEADBEEF (serial_init []) slow-Answers
      (unfold serial_init outb in refl) (omega arith)

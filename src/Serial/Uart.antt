-- ===== src/Serial/Uart.antt =====
-- The chip that arch/x86_64/serial.c drives: what the bytes written to its ports mean.
use feudos.Prelude.{ℕ, ◌+◌, ◌≡◌, refl, Bool, false, List, [], ◌∷◌, ◌++◌, leb, ◌==◌, if◌then◌else◌}
use feudos.Io.{Access, wrote, got, Trace, outb}
use feudos.Serial.{com1, serial_init}

-- `sent` are the bytes that were sent, in their order.
pub record Uart : Type 0 where
  pub divisor_low : ℕ
  pub divisor_high : ℕ
  pub interrupts : ℕ
  pub fifo : ℕ
  pub line_control : ℕ
  pub modem_control : ℕ
  pub sent : List ℕ

-- Bit 7 of the line control puts the divisor behind the first two ports.
abbrev pub divisor_access : Uart → Bool
divisor_access u = leb 0x80 u.line_control

abbrev pub uart_write : ℕ → ℕ → Uart → Uart
uart_write port v u =
    if port == com1
    then if divisor_access u
      then record u { divisor_low = v }
      else record u { sent = u.sent ++ v ∷ [] }
    else if port == com1 + 1
    then if divisor_access u then record u { divisor_high = v } else record u { interrupts = v }
    else if port == com1 + 2
    then record u { fifo = v }
    else if port == com1 + 3
    then record u { line_control = v }
    else if port == com1 + 4
    then record u { modem_control = v }
    else u

abbrev pub uart_step : Access → Uart → Uart
uart_step (wrote port v) u = uart_write port v u
uart_step (got port v) u = u

-- The chip after the accesses of a trace, from its state at power on.
abbrev pub uart : Uart → Trace → Uart
uart start [] = start
uart start (a ∷ tr) = uart_step a (uart start tr)

-- Where the divisor is not accessed, `serial_init` leaves the chip at a divisor of 3, 38400 baud,
-- with 8 bits, no parity and one stop bit, without interrupts, and sends nothing.
pub serial_init-IsSetUp :
    (start : Uart) (tr : Trace)
    → divisor_access (uart start tr) ≡ false
    → uart start (serial_init tr) ≡ record {
      divisor_low = 3;
      divisor_high = 0;
      interrupts = 0;
      fifo = 0xC7;
      line_control = 0x03;
      modem_control = 0x0B;
      sent = (uart start tr).sent;
    }
unfolding serial_init outb
serial_init-IsSetUp start tr h = rw h refl

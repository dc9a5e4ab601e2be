-- ===== src/Serial/Sending.antt =====
-- arch/x86_64/serial.c, `serial_print`: what goes to the port, and when.
use Prim.Native.Nat.{bit_and}
use feudos.Prelude.{
  ℕ, zero, suc, ◌+◌, ◌≡◌, ◌≢◌, refl, ◌∙◌, ap, Bool, true, false, some, List, [], ◌∷◌, ◌++◌,
  append-nil, sym, ne→==false, arith, ◌==◌, map, Yields, Yields-bind, Yields-mono, Bool-cases, inl,
  inr, ==_iff,
}
use mathlib.Core.List.{append_assoc}
use feudos.Str.{Lacks}
use feudos.Str.Compare.{c_text, c_text-eq-some}
use feudos.Io.{wrote, got, Trace, Device, byte, outb, inb}
use feudos.Serial.{com1, serial_tx_empty, serial_wait, serial_print}
use feudos.Serial.Uart.{Uart, uart, divisor_access}

-- The line status register, and its bit that says that the port takes a byte.
abbrev pub status : Device → Trace → ℕ
status dev tr = byte (dev tr (com1 + 5))

abbrev pub empty_bit : ℕ → ℕ
empty_bit v = bit_and v 0x20

abbrev pub poll : Device → Trace → Trace
poll dev tr = got (com1 + 5) (status dev tr) ∷ tr

-- One of the next polls says that the port takes a byte.
abbrev pub ReadyIn : Device → ℕ → Trace → Type 0
ReadyIn dev zero tr = ◌≡◌ {A = Bool} true false
ReadyIn dev (suc n) tr = (empty_bit (status dev tr) ≡ 0 → ReadyIn dev n (poll dev tr))

-- The bytes are sent by these accesses: before each the port is polled until it takes a byte.
pub data Sends (dev : Device) : List ℕ → Trace → Trace → Type 0 where
  nothing : {tr : Trace} → Sends dev [] tr tr
  busy :
      {c : ℕ} {cs : List ℕ} {tr t : Trace}
      → empty_bit (status dev tr) ≡ 0
      → Sends dev (c ∷ cs) (poll dev tr) t
      → Sends dev (c ∷ cs) tr t
  ready :
      {c : ℕ} {cs : List ℕ} {tr t : Trace}
      → empty_bit (status dev tr) ≢ 0
      → Sends dev cs (wrote com1 (byte c) ∷ poll dev tr) t
      → Sends dev (c ∷ cs) tr t

pub Sends-append :
    (dev : Device) {cs ds : List ℕ} {tr t u : Trace}
    → Sends dev cs tr t
    → Sends dev ds t u
    → Sends dev (cs ++ ds) tr u
Sends-append dev nothing k = k
Sends-append dev (busy e h) k = busy e (Sends-append dev h k)
Sends-append dev (ready e h) k = ready e (Sends-append dev h k)

-- The port takes a byte within the polls.
serial_wait-Sends :
    (dev : Device) (polls c : ℕ) (tr : Trace)
    → ReadyIn dev polls tr
    → Yields
        (λ t. (cs : List ℕ) (u : Trace) → Sends dev cs (outb com1 c t) u → Sends dev (c ∷ cs) tr u)
        (serial_wait polls dev tr)
unfolding serial_wait serial_tx_empty inb outb
serial_wait-Sends dev zero c tr h = absurd (cc h)
serial_wait-Sends dev (suc n) c tr h = elim (Bool-cases (empty_bit (status dev tr) == 0)) [
  | inl e ↦
      let z = (==_iff _ _).0 e in
      rw e (
        Yields-mono _ (serial_wait-Sends dev n c (poll dev tr) (h z))
          λ t k cs u w. busy z (k cs u w))
  | inr e ↦
      let nz : empty_bit (status dev tr) ≢ 0 = λ z. ground arith in
      rw e (_, refl, λ cs u w. ready nz w)
]

-- Whatever was accessed before, the port takes a byte within these polls.
abbrev pub Answers : Device → ℕ → Type 0
Answers dev polls = (tr : Trace) → ReadyIn dev polls tr

serial_print-text :
    (dev : Device) (polls : ℕ) (cs r : List ℕ) (tr : Trace)
    → Answers dev polls
    → Lacks 0 cs
    → Yields (Sends dev cs tr) (serial_print polls dev (cs ++ 0 ∷ r) tr)
unfolding serial_print
serial_print-text dev polls [] r tr a h = (tr, refl, nothing)
serial_print-text dev polls (c ∷ cs) r tr a (hc, h) =
    let e : c == 0 ≡ false = ne→==false c 0 hc in
    rw e (
      Yields-bind _ _ (serial_wait-Sends dev polls c tr (a tr))
        λ t k. Yields-mono _ (serial_print-text dev polls cs r (outb com1 c t) a h) λ u w. k cs u w)

-- The text of a C string.
pub serial_print-Sends :
    (dev : Device) (polls : ℕ) (s cs : List ℕ) (tr : Trace)
    → Answers dev polls
    → c_text s ≡ some cs
    → Yields (Sends dev cs tr) (serial_print polls dev s tr)
serial_print-Sends dev polls s cs tr a e =
    let (r, er, h) = c_text-eq-some s cs e in rw er (serial_print-text dev polls cs r tr a h)

-- The chip with these bytes sent.
abbrev pub and_sent : List ℕ → Uart → Uart
and_sent bs u = record u { sent = u.sent ++ bs }

-- The chip has sent the bytes, and is otherwise as it was.
pub Sends-sent :
    (dev : Device) (start : Uart) {cs : List ℕ} {tr t : Trace}
    → Sends dev cs tr t
    → divisor_access (uart start tr) ≡ false
    → uart start t ≡ and_sent (map byte cs) (uart start tr)
Sends-sent dev start {tr = tr} nothing h =
    ap (λ l. record (uart start tr) { sent = l }) (sym (append-nil _))
Sends-sent dev start (busy e w) h = Sends-sent dev start w h
Sends-sent dev start {cs = c ∷ cs} {tr = tr} (ready e w) h =
    let u = uart start tr in
    let one : uart start (wrote com1 (byte c) ∷ poll dev tr) ≡ and_sent (byte c ∷ []) u =
      rw h refl in
    Sends-sent dev start w (ap divisor_access one ∙ h)
    ∙ ap (and_sent (map byte cs)) one
    ∙ ap (λ l. record u { sent = l }) (append_assoc u.sent (byte c ∷ []) (map byte cs))

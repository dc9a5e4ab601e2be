-- ===== src/Live/Session.antt =====
-- The loop of `ksh_run` on interrupts: any number of rounds of the running kernel.
use feudos.Prelude.{
  ℕ, ◌-◌, ◌^◌, ◌<◌, ◌≡◌, ◌∙◌, ap, sym, Bool, some, List, [], ◌∷◌, ◌++◌, append-nil, length, Yields,
}
use feudos.Io.{Device}
use feudos.Vga.{Screen}
use feudos.Keyboard.{kbd_buf_size}
use feudos.Keyboard.Edit.{typed}
use feudos.Keyboard.Readline.{complete, line_of_keys}
use feudos.Idt.{Kernel}
use feudos.Idt.Irq.{Sound}
use feudos.Ksh
use feudos.Ksh.{Cpuid, Ended, returned, line_size}
use feudos.Ksh.Outcome.{Described}
use feudos.Ksh.Session.{transcript, transcript_grows}
use feudos.Live.{Interrupt, ran, ksh_round}
use feudos.Live.Lines.{AllWakes, wake_scancodes}
use feudos.Live.Turns.{Ran, ksh_round-Ran, Ran-small}

-- The interrupts of a round, whose scancodes make the line `ln`, with what the array `line` holds
-- before it.
pub record Typing (dev : Device) (ln : List ℕ) (k : Kernel) : Type 0 where
  pub buffer : List ℕ
  pub sized : length buffer ≡ line_size
  pub wakes : List (List Interrupt)
  pub lines : AllWakes wakes
  pub characters : List ℕ
  pub short : length ln < 127
  pub completes :
      line_of_keys
        (kbd_buf_size - 1 - k.keyboard.kbd_buf.pos)
        k.keyboard.shift_held
        []
        []
        (wake_scancodes dev wakes k.ports)
      ≡ some (complete characters (ln ++ 10 ∷ []))

-- The kernel after rounds that have read these lines, none of which has halted the machine.
pub data Session (dev : Device) (id : Cpuid) (k0 : Kernel) : List (List ℕ) → Kernel → Type 0 where
  opened : Session dev id k0 [] k0
  turn :
      {lns : List (List ℕ)} {k k' : Kernel} {ln line_bytes : List ℕ} {ok : Bool} {s : Screen}
      (keys : Typing dev ln k)
      → Session dev id k0 lns k
      → ksh_round dev id keys.buffer keys.wakes k ≡ some (ran line_bytes k' (returned ok s))
      → Session dev id k0 (lns ++ ln ∷ []) (record k' { screen = s })

-- What holds between two rounds.
pub record Idle (k0 : Kernel) (lns : List (List ℕ)) (k : Kernel) : Type 0 where
  pub sound : Sound k
  pub small : k.ticks < 2 ^ 64
  pub text : typed k.keyboard.kbd_buf ≡ typed k0.keyboard.kbd_buf ++ transcript lns

module _ (dev : Device) (id : Cpuid) (vendor brand : List ℕ)
    (described : Described id vendor brand) where
  typing-Ran :
      (ln : List ℕ) (k : Kernel) (keys : Typing dev ln k)
      → Sound k
      → k.ticks < 2 ^ 64
      → Yields
          (Ran dev id ln keys.characters keys.wakes k)
          (ksh_round dev id keys.buffer keys.wakes k)
  typing-Ran ln k keys v small =
      ksh_round-Ran dev id vendor brand described ln keys.characters keys.buffer keys.wakes k v
        small keys.lines keys.short keys.sized keys.completes

  after_turn :
      (k0 k k' : Kernel) (lns : List (List ℕ)) (ln line_bytes : List ℕ) (ok : Bool) (s : Screen)
      (keys : Typing dev ln k)
      → Idle k0 lns k
      → ksh_round dev id keys.buffer keys.wakes k ≡ some (ran line_bytes k' (returned ok s))
      → Idle k0 (lns ++ ln ∷ []) (record k' { screen = s })
  after_turn k0 k k' lns ln line_bytes ok s keys i e =
      let (r, er, d) = typing-Ran ln k keys i.sound i.small in
      let same : ran line_bytes k' (returned ok s) ≡ ran d.line_bytes d.kernel d.end =
        cc (e, er, d.outcome) in
      let kernel : d.kernel ≡ k' = cc same in
      let ended : d.end ≡ returned ok s = cc same in
      let now : Ksh.ran d.line_bytes d.kernel.keyboard d.end
          ≡ Ksh.ran (ln ++ 0 ∷ d.turned.behind_line) d.turned.keyboard d.turned.end =
        d.turned.outcome in
      let board : d.turned.keyboard ≡ k'.keyboard =
        cc (now, ap (λ (k : Kernel). k.keyboard) kernel) in
      let left : d.turned.end ≡ returned ok s = cc (now, ended) in
      record {
        sound = record {
          screen_valid = rw left at d.turned.valid;
          buffer_valid =
              rw (ap (λ (b : feudos.Keyboard.Keyboard). b.kbd_buf) board) at d.turned.buffer;
        };
        small =
            rw (ap (λ (k : Kernel). k.ticks) kernel) at
              (Ran-small dev id ln keys.characters keys.wakes k r i.small d);
        text =
            ap (λ (b : feudos.Keyboard.Keyboard). typed b.kbd_buf) (sym board)
            ∙ d.turned.text
            ∙ transcript_grows (typed k0.keyboard.kbd_buf) _ lns ln i.text;
      }

  Session-Idle :
      {k0 : Kernel} {lns : List (List ℕ)} {k : Kernel}
      → Sound k0
      → k0.ticks < 2 ^ 64
      → Session dev id k0 lns k
      → Idle k0 lns k
  Session-Idle {k0 = k0} v small opened = record {
    sound = v;
    small = small;
    text = sym (append-nil (typed k0.keyboard.kbd_buf));
  }
  Session-Idle {k0 = k0} v small
        (turn {lns = lns} {k = k} {k' = k'} {ln = ln} {line_bytes = l} {ok = ok} {s = s} keys rounds
          e) =
      after_turn k0 k k' lns ln l ok s keys (Session-Idle v small rounds) e

  -- From a sound kernel, with a processor that describes itself in terminated texts: after any rounds
  -- of the shell in which the interrupts of the controllers' lines have made lines of at most 126
  -- bytes, while what is typed neither takes back earlier text nor fills the buffer, the buffer
  -- holds the earlier text and these lines, and a further round whose interrupts make such a line
  -- ends without a fault: it has shown the prompt and the typed characters, the counter has counted
  -- the timer's interrupts up to the line, the command has run on exactly this line and this
  -- counter, and buffer and screen stay valid.
  pub Session-Ran :
      (k0 k : Kernel) (lns : List (List ℕ)) (ln : List ℕ) (keys : Typing dev ln k)
      → Sound k0
      → k0.ticks < 2 ^ 64
      → Session dev id k0 lns k
      → (typed k.keyboard.kbd_buf ≡ typed k0.keyboard.kbd_buf ++ transcript lns)
        × Yields
            (Ran dev id ln keys.characters keys.wakes k)
            (ksh_round dev id keys.buffer keys.wakes k)
  Session-Ran k0 k lns ln keys v small rounds =
      let i = Session-Idle v small rounds in (i.text, typing-Ran ln k keys i.sound i.small)

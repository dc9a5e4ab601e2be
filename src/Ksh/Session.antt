-- ===== src/Ksh/Session.antt =====
-- kernel/ksh/ksh.c, the loop of `ksh_run`: any number of rounds.
use mathlib.Core.List.{append_assoc, append-nil}
use feudos.Prelude.{
  ℕ, ◌-◌, ◌^◌, ◌<◌, ◌≡◌, ◌∙◌, ap, sym, Bool, some, List, [], ◌∷◌, ◌++◌, arith, length, Yields,
}
use feudos.Vga.{Screen}
use feudos.Vga.Valid.{IsValid}
use feudos.Keyboard.{Keyboard, kbd_buf_size}
use feudos.Keyboard.Edit
use feudos.Keyboard.Edit.{typed}
use feudos.Keyboard.Readline.{AllBytes, complete, line_of_keys}
use feudos.Ksh.{Cpuid, returned, ran, line_size, ksh_round}
use feudos.Ksh.Outcome.{Described}
use feudos.Ksh.Turn.{Turned, ksh_round-Turned}

-- The keys of a round that make the line `ln`, with the counter and what the array holds before.
pub record Keyed (ln : List ℕ) (k : Keyboard) : Type 0 where
  pub ticks : ℕ
  pub small : ticks < 2 ^ 64
  pub buffer : List ℕ
  pub sized : length buffer ≡ line_size
  pub wakes : List (List ℕ)
  pub bytes : AllBytes wakes
  pub characters : List ℕ
  pub short : length ln < 127
  pub completes :
      line_of_keys (kbd_buf_size - 1 - k.kbd_buf.pos) k.shift_held [] [] wakes
      ≡ some (complete characters (ln ++ 10 ∷ []))

-- The lines read by the rounds of the loop so far, none of which has halted the machine.
pub data Session (id : Cpuid) (k : Keyboard) (s : Screen)
    : List (List ℕ) → Keyboard → Screen → Type 0 where
  opened : Session id k s [] k s
  turn :
      {lns : List (List ℕ)} {k1 k2 : Keyboard} {s1 s2 : Screen} {ln line_bytes : List ℕ} {ok : Bool}
      (keys : Keyed ln k1)
      → Session id k s lns k1 s1
      → ksh_round id keys.ticks keys.buffer keys.wakes k1 s1
        ≡ some (ran line_bytes k2 (returned ok s2))
      → Session id k s (lns ++ ln ∷ []) k2 s2

-- The lines with their newlines.
abbrev pub transcript : List (List ℕ) → List ℕ
transcript [] = []
transcript (ln ∷ lns) = (ln ++ 10 ∷ []) ++ transcript lns

transcript-append :
    (lns : List (List ℕ)) (ln : List ℕ)
    → transcript (lns ++ ln ∷ []) ≡ transcript lns ++ (ln ++ 10 ∷ [])
transcript-append [] ln = append-nil (ln ++ 10 ∷ [])
transcript-append (x ∷ lns) ln =
    ap (λ l. (x ++ 10 ∷ []) ++ l) (transcript-append lns ln)
    ∙ sym (append_assoc (x ++ 10 ∷ []) (transcript lns) (ln ++ 10 ∷ []))

pub transcript_grows :
    (base text : List ℕ) (lns : List (List ℕ)) (ln : List ℕ)
    → text ≡ base ++ transcript lns
    → text ++ (ln ++ 10 ∷ []) ≡ base ++ transcript (lns ++ ln ∷ [])
transcript_grows base text lns ln e =
    ap (λ l. l ++ (ln ++ 10 ∷ [])) e
    ∙ append_assoc base (transcript lns) (ln ++ 10 ∷ [])
    ∙ ap (λ l. base ++ l) (sym (transcript-append lns ln))

-- What holds between two rounds.
pub record Idle (k0 k : Keyboard) (s : Screen) (lns : List (List ℕ)) : Type 0 where
  pub buffer : Edit.IsValid k.kbd_buf
  pub screen : IsValid s
  pub text : typed k.kbd_buf ≡ typed k0.kbd_buf ++ transcript lns

module _ (id : Cpuid) (vendor brand : List ℕ) (described : Described id vendor brand) where
  keys-Turned :
      (ln : List ℕ) (k : Keyboard) (s : Screen) (keys : Keyed ln k)
      → Edit.IsValid k.kbd_buf
      → IsValid s
      → Yields
          (Turned id keys.ticks ln keys.characters k s)
          (ksh_round id keys.ticks keys.buffer keys.wakes k s)
  keys-Turned ln k s keys vk vs =
      ksh_round-Turned id vendor brand keys.ticks described keys.small ln keys.characters
        (kbd_buf_size - 1 - k.kbd_buf.pos) keys.buffer keys.wakes k s vk vs keys.short keys.sized
        keys.bytes (omega (arith, vk.room)) keys.completes

  after_turn :
      (k0 k1 k2 : Keyboard) (s1 s2 : Screen) (lns : List (List ℕ)) (ln line_bytes : List ℕ)
      (ok : Bool) (keys : Keyed ln k1)
      → Idle k0 k1 s1 lns
      → ksh_round id keys.ticks keys.buffer keys.wakes k1 s1
        ≡ some (ran line_bytes k2 (returned ok s2))
      → Idle k0 k2 s2 (lns ++ ln ∷ [])
  after_turn k0 k1 k2 s1 s2 lns ln line_bytes ok keys i e =
      let (r, er, d) = keys-Turned ln k1 s1 keys i.buffer i.screen in
      let same : ran line_bytes k2 (returned ok s2)
          ≡ ran (ln ++ 0 ∷ d.behind_line) d.keyboard d.end =
        cc (e, er, d.outcome) in
      let ek : d.keyboard ≡ k2 = cc same in
      let ee : d.end ≡ returned ok s2 = cc same in
      record {
        buffer = rw (ap (λ (k : Keyboard). k.kbd_buf) ek) at d.buffer;
        screen = rw ee at d.valid;
        text =
            ap (λ (k : Keyboard). typed k.kbd_buf) (sym ek)
            ∙ d.text
            ∙ transcript_grows (typed k0.kbd_buf) _ lns ln i.text;
      }

  Session-Idle :
      {k0 : Keyboard} {s0 : Screen} {lns : List (List ℕ)} {k : Keyboard} {s : Screen}
      → Edit.IsValid k0.kbd_buf
      → IsValid s0
      → Session id k0 s0 lns k s
      → Idle k0 k s lns
  Session-Idle {k0 = k0} vk vs opened = record {
    buffer = vk;
    screen = vs;
    text = sym (append-nil (typed k0.kbd_buf));
  }
  Session-Idle {k0 = k0} vk vs
        (turn {lns = lns} {k1 = k1} {k2 = k2} {s1 = s1} {s2 = s2} {ln = ln} {line_bytes = l}
          {ok = ok} keys rounds e) =
      after_turn k0 k1 k2 s1 s2 lns ln l ok keys (Session-Idle vk vs rounds) e

  -- From a valid buffer and screen, with a processor that describes itself in terminated texts:
  -- after any rounds of the shell that have each read a line of at most 126 bytes, while what is
  -- typed neither takes back earlier text nor fills the buffer, the buffer holds the earlier text
  -- and the lines read, one after the other, and a further round whose keys make such a line ends
  -- without a fault: it has shown the prompt and the typed characters, and executed exactly this
  -- line, and buffer and screen stay valid.
  pub Session-Turned :
      (k0 k : Keyboard) (s0 s : Screen) (lns : List (List ℕ)) (ln : List ℕ) (keys : Keyed ln k)
      → Edit.IsValid k0.kbd_buf
      → IsValid s0
      → Session id k0 s0 lns k s
      → (typed k.kbd_buf ≡ typed k0.kbd_buf ++ transcript lns)
        × Yields
            (Turned id keys.ticks ln keys.characters k s)
            (ksh_round id keys.ticks keys.buffer keys.wakes k s)
  Session-Turned k0 k s0 s lns ln keys vk vs rounds =
      let i = Session-Idle vk vs rounds in (i.text, keys-Turned ln k s keys i.buffer i.screen)

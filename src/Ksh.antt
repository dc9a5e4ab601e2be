-- ===== src/Ksh.antt =====
-- kernel/ksh/ksh.c, kernel/ksh/handlers.c and their headers: the shell.
-- The proofs are in the modules below.
pub mod Events
pub mod Commands
pub mod Exec
pub mod Outcome
pub mod Safe
pub mod Turn
pub mod Shell
pub mod Session
pub mod Sample
mod Tests
use Prim.Native.Nat.{bit_and}
use feudos.Prelude.{
  ℕ, zero, suc, ◌+◌, ◌-◌, ◌*◌, ◌/◌, ◌%◌, ◌^◌, Bool, true, false, Option, none, some, List, [], ◌∷◌,
  ◌++◌, ◌==◌, if◌then◌else◌, drop, replicate, ◌>>=◌, store,
}
use feudos.Prelude.Int.{ℤ, pos, negsuc}
use feudos.Str.{c_string, streq, strfle, strfnl, strncpy_f}
use feudos.Vga.{Screen, vga_move_cursor, vga_clear_screen, bit_set}
use feudos.Vga.Color.{vga_white, vga_color}
use feudos.Printf.{Arg, word, text, kprintf}
use feudos.Timer.{timer_uptime_ms}
use feudos.Log.{kernel_panic}
use feudos.Keyboard.{Keyboard, Reading, waiting, line, kbd_readline}

-- The registers that `cpuid` sets for a leaf, and the instruction.
pub record Regs : Type 0 where
  pub eax : ℕ
  pub ebx : ℕ
  pub ecx : ℕ
  pub edx : ℕ

abbrev pub Cpuid : Type 0
Cpuid = ℕ → Regs

-- The handlers by name, and `struct ksh_cmd`.
pub data Handler : Type 0 where
  uptime cpuid clear uname panic echo help : Handler

pub record KshCmd : Type 0 where
  pub name : List ℕ
  pub func : Handler
  pub help_text : List ℕ

abbrev pub entry : List ℕ → Handler → List ℕ → KshCmd
entry name func help_text = record { name = name; func = func; help_text = help_text }

-- `ksh_handlers` once `ksh_populate_base_cmds` has run.
abbrev pub ksh_handlers : List KshCmd
ksh_handlers =
    entry (c_string "uptime") uptime (c_string "Prints how long machine been running")
    ∷ entry (c_string "cpuid") cpuid (c_string "Prints some info about this machine's CPU")
    ∷ entry (c_string "clear") clear (c_string "Clears the screen")
    ∷ entry (c_string "uname") uname (c_string "Clears the screen")
    ∷ entry (c_string "panic") panic (c_string "Triggers a kernel panic with specified message.")
    ∷ entry (c_string "echo") echo (c_string "Repeat the specified text.")
    ∷ entry (c_string "help") help (c_string "Print help message.")
    ∷ []

-- How a command ends: it returns, or it has halted the machine.
pub data Ended : Type 0 where
  returned : Bool → Screen → Ended
  halted : Screen → Ended

unfoldable pub ksh_hndl_uptime : ℕ → Screen → Option Screen
ksh_hndl_uptime ticks s =
    let total_seconds = timer_uptime_ms ticks / 1000 in
    kprintf (c_string "up %lu:%lu:%lu\n")
      (word (total_seconds / 3600)
        ∷ word (total_seconds / 60 % 60)
        ∷ word (total_seconds % 60)
        ∷ [])
      s

-- *(unsigned int*)p = v
abbrev pub word_bytes : ℕ → List ℕ
word_bytes v = v % 2 ^ 8 ∷ v / 2 ^ 8 % 2 ^ 8 ∷ v / 2 ^ 16 % 2 ^ 8 ∷ v / 2 ^ 24 % 2 ^ 8 ∷ []

unfoldable pub cpu_vendor : Cpuid → List ℕ
cpu_vendor id = let r = id 0 in word_bytes r.ebx ++ word_bytes r.edx ++ word_bytes r.ecx ++ 0 ∷ []

abbrev pub reg_bytes : Regs → List ℕ
reg_bytes r = word_bytes r.eax ++ word_bytes r.ebx ++ word_bytes r.ecx ++ word_bytes r.edx

-- The 48 bytes of `brand`, with no terminator behind them.
unfoldable pub cpu_brand : Cpuid → List ℕ
cpu_brand id = reg_bytes (id 0x80000002) ++ reg_bytes (id 0x80000003) ++ reg_bytes (id 0x80000004)

-- `features`, with `feature_names` beside each.
unfoldable pub cpu_features : Cpuid → List (Bool × List ℕ)
cpu_features id =
    let r = id 1 in
    let q = id 7 in
    (bit_set r.ecx 0, c_string "SSE3")
    ∷ (bit_set r.ecx 19, c_string "SSE4.1")
    ∷ (bit_set r.ecx 20, c_string "SSE4.2")
    ∷ (bit_set r.edx 9, c_string "APIC")
    ∷ (bit_set r.ecx 28, c_string "AVX")
    ∷ (bit_set q.ebx 5, c_string "AVX2")
    ∷ []

-- The loop over the features; each name goes through `strncpy_f` into an array of 7 bytes.
unfoldable pub print_features : List (Bool × List ℕ) → Screen → Option Screen
print_features [] s = some s
print_features ((present, name) ∷ rest) s = do
  feature_name ← strncpy_f (replicate 7 0) name 7
  t ←
      kprintf (c_string " %s%s ")
        (text (if present then c_string "+" else c_string "-") ∷ text feature_name ∷ []) s
  print_features rest t

unfoldable pub ksh_hndl_cpuid : Cpuid → Screen → Option Screen
ksh_hndl_cpuid id s = do
  a ← kprintf (c_string "CPU vendor: %s\n") (text (cpu_vendor id) ∷ []) s
  b ← kprintf (c_string "CPU model: %s\n") (text (cpu_brand id) ∷ []) a
  c ← kprintf (c_string "Features: ") [] b
  d ← print_features (cpu_features id) c
  kprintf (c_string "\n") [] d

abbrev pub def_text_col : ℕ
def_text_col = vga_color vga_white

unfoldable pub ksh_hndl_clear : Screen → Option Screen
ksh_hndl_clear s = vga_clear_screen def_text_col (vga_move_cursor 0 0 s)

unfoldable pub ksh_hndl_uname : Screen → Option Screen
ksh_hndl_uname =
    kprintf (c_string "%s %s %s\n")
      (text (c_string "FeudOS kernel") ∷ text (c_string "v0.0.7") ∷ text (c_string "x86_64") ∷ [])

unfoldable pub ksh_hndl_echo : List ℕ → Screen → Option Screen
ksh_hndl_echo args = kprintf (c_string "%s\n") (text args ∷ [])

-- The loop of `ksh_hndl_help`.
unfoldable pub print_help : List KshCmd → Screen → Option Screen
print_help [] s = some s
print_help (hndl ∷ rest) s = do
  t ← kprintf (c_string "%s: %s\n") (text hndl.name ∷ text hndl.help_text ∷ []) s
  print_help rest t

unfoldable pub ksh_hndl_help : Screen → Option Screen
ksh_hndl_help = print_help ksh_handlers

-- It halts, with this screen.
unfoldable pub ksh_hndl_panic : List ℕ → Screen → Option Screen
ksh_hndl_panic args s = kernel_panic (c_string "%s\n") (text args ∷ []) s

-- The call of a handler by its pointer. All return true but `ksh_hndl_panic`, which halts.
unfoldable pub call : Cpuid → ℕ → Handler → List ℕ → Screen → Option Ended
call id ticks uptime args s = do t ← ksh_hndl_uptime ticks s; some (returned true t)
call id ticks cpuid args s = do t ← ksh_hndl_cpuid id s; some (returned true t)
call id ticks clear args s = do t ← ksh_hndl_clear s; some (returned true t)
call id ticks uname args s = do t ← ksh_hndl_uname s; some (returned true t)
call id ticks panic args s = do t ← ksh_hndl_panic args s; some (halted t)
call id ticks echo args s = do t ← ksh_hndl_echo args s; some (returned true t)
call id ticks help args s = do t ← ksh_hndl_help s; some (returned true t)

-- The loop of `ksh_exec` over the table, on the command with its terminator set.
unfoldable pub exec_loop : Cpuid → ℕ → List KshCmd → List ℕ → List ℕ → Screen → Option Ended
exec_loop id ticks [] cmd args s = do
  t ← kprintf (c_string "Unknown command: %s\n") (text cmd ∷ []) s
  some (returned false t)
exec_loop id ticks (cur ∷ rest) cmd args s =
    let next = exec_loop id ticks rest cmd args s in
    do found ← streq cmd cur.name; if found then call id ticks cur.func args s else next

-- `name_end + 1`, as an offset from `cmd`.
abbrev pub behind : ℤ → ℕ
behind (pos n) = n + 1
behind (negsuc n) = 0 - n

-- The arguments are a pointer into the command, behind the byte that is overwritten, or "".
abbrev pub args_at : Option ℕ → List ℕ → List ℕ
args_at none cmd = c_string ""
args_at (some i) cmd = drop i cmd

unfoldable pub ksh_exec : Cpuid → ℕ → List ℕ → Screen → Option Ended
ksh_exec id ticks cmd s = do
  args_start ← strfnl cmd b' '
  name_end ← strfle cmd b' '
  ended ← store cmd (behind name_end) 0
  exec_loop id ticks ksh_handlers ended (args_at args_start ended) s

-- One round of the loop of `ksh_run`: it waits for the line, or has run it.
pub data Round : Type 0 where
  reading : Keyboard → Screen → Round
  ran : List ℕ → Keyboard → Ended → Round

abbrev pub line_size : ℕ
line_size = 128

-- What a round does once `kbd_readline` returns; `len - 1` wraps.
unfoldable pub ksh_line : Cpuid → ℕ → Reading → Option Round
ksh_line id ticks (waiting k s) = some (reading k s)
ksh_line id ticks (line bytes len k s) = do
  cut ← store bytes ((len + 2 ^ 64 - 1) % 2 ^ 64) 0
  e ← ksh_exec id ticks cut s
  some (ran cut k e)

unfoldable pub ksh_round : Cpuid → ℕ → List ℕ → List (List ℕ) → Keyboard → Screen → Option Round
ksh_round id ticks buffer wakes k s = do
  t ← kprintf (c_string "ksh> ") [] s
  r ← kbd_readline buffer line_size wakes k t
  ksh_line id ticks r

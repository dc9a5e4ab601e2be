-- ===== src/Log.antt =====
-- kernel/log.c and include/kernel/log.h, and `kernel_panic` of kernel/kernel.c.
-- The proofs are in the module below.
pub mod Events
use feudos.Prelude.{ℕ, Option, none, some, List, [], ◌∷◌, ◌>>=◌}
use feudos.Str.{c_string}
use feudos.Vga.{Screen}
use feudos.Vga.Color.{vga_red, vga_color}
use feudos.Printf.{Arg, word, text, kprintf, kvprintf}

-- `enum LogLevel`; `other` is any value that it does not name.
pub data LogLevel : Type 0 where
  none_level info warn error critical other : LogLevel

unfoldable pub klogl_str : LogLevel → List ℕ
klogl_str none_level = c_string ""
klogl_str info = c_string "OK"
klogl_str warn = c_string "WARN"
klogl_str error = c_string "ERROR"
klogl_str critical = c_string "CRITICAL"
klogl_str other = c_string ""

-- The prefix, printed but for `NONE`.
unfoldable pub klog_prefix : LogLevel → Screen → Option Screen
klog_prefix none_level s = some s
klog_prefix info s = kprintf (c_string "[%s] ") (text (klogl_str info) ∷ []) s
klog_prefix warn s = kprintf (c_string "[%s] ") (text (klogl_str warn) ∷ []) s
klog_prefix error s = kprintf (c_string "[%s] ") (text (klogl_str error) ∷ []) s
klog_prefix critical s = kprintf (c_string "[%s] ") (text (klogl_str critical) ∷ []) s
klog_prefix other s = kprintf (c_string "[%s] ") (text (klogl_str other) ∷ []) s

unfoldable pub klog : LogLevel → List ℕ → List Arg → Screen → Option Screen
klog l fmt args s = do t ← klog_prefix l s; kvprintf fmt args t

abbrev pub panic_color : ℕ
panic_color = vga_color vga_red

-- What `kernel_panic` leaves on the screen when it halts for good.
unfoldable pub kernel_panic : List ℕ → List Arg → Screen → Option Screen
kernel_panic msg args s = do
  t ← kprintf (b'%' ∷ b'k' ∷ c_string "Kernel panic!\n\t") (word panic_color ∷ []) s
  kvprintf msg args t

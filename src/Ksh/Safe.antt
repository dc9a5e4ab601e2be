-- ===== src/Ksh/Safe.antt =====
-- kernel/ksh/ksh.c, `ksh_exec` on any line.
use feudos.Prelude.{
  ℕ, zero, suc, ◌-◌, ◌≤◌, ◌<◌, ◌≡◌, ◌^◌, refl, Option, some, none, List, [], ◌∷◌, arith, length,
  set, lt→ltb, Yields, Yields-bind,
}
use feudos.Prelude.Int.{ℤ, pos, negsuc}
use feudos.Str.Compare.{c_text, c_text-eq-some}
use feudos.Str.Scan.{
  NulAt, PointsIn, EndsIn, c_text-NulAt, NulAt-set, NulAt-drop, strfnl-PointsIn, strfle-EndsIn,
}
use feudos.Vga.{Screen}
use feudos.Vga.Valid.{IsValid}
use feudos.Printf.Refine.{replay-IsValid}
use feudos.Ksh.{Cpuid, Handler, behind, args_at, exec_loop, ksh_handlers, ksh_exec}
use feudos.Ksh.Events.{unknown_events}
use feudos.Ksh.Exec.{names, find, dispatch, ksh_handlers-Names, exec_loop-dispatch}
use feudos.Ksh.Outcome.{Described, Leaves, call-IsValid}

-- An index at or before a NUL is inside the array.
NulAt-length : (xs : List ℕ) (n : ℕ) → NulAt n xs → n < length xs
NulAt-length [] n h = cc
NulAt-length (c ∷ xs) zero h = omega arith
NulAt-length (c ∷ xs) (suc n) h = omega (arith, NulAt-length xs n h)

behind-EndsIn : (z : ℤ) (n : ℕ) → EndsIn n z → behind z ≤ n
behind-EndsIn (pos j) n h = omega arith
behind-EndsIn (negsuc j) n h = omega arith

args_at-text :
    (o : Option ℕ) (xs : List ℕ) (n : ℕ)
    → NulAt n xs
    → PointsIn n o
    → (cs : List ℕ) × (c_text (args_at o xs) ≡ some cs)
unfolding c_text
args_at-text none xs n h p = ([], refl)
args_at-text (some j) xs n h p = c_text-NulAt _ (n - j) (NulAt-drop xs n j p h)

module _ (id : Cpuid) (vendor brand : List ℕ) (ticks : ℕ) (s : Screen)
    (described : Described id vendor brand) (small : ticks < 2 ^ 64) (v : IsValid s) where
  dispatch-IsValid :
      (o : Option Handler) (name a args : List ℕ)
      → c_text a ≡ some args
      → Yields (Leaves IsValid) (dispatch id ticks o name a s)
  dispatch-IsValid none name a args h =
      Yields-bind _ _ (replay-IsValid (unknown_events name) s v) λ t vt. (_, refl, vt)
  dispatch-IsValid (some f) name a args h =
      call-IsValid id vendor brand ticks f a args s described small h v

  exec_loop-IsValid :
      (cmd a args : List ℕ) (n : ℕ)
      → NulAt n cmd
      → c_text a ≡ some args
      → Yields (Leaves IsValid) (exec_loop id ticks ksh_handlers cmd a s)
  exec_loop-IsValid cmd a args n h ha =
      let (name, e) = c_text-NulAt cmd n h in
      let (rest, split, lacks) = c_text-eq-some cmd name e in
      rw
        (
          split,
          exec_loop-dispatch id ticks ksh_handlers names name rest a s ksh_handlers-Names lacks v,
        )
        (dispatch-IsValid (find name names) name a args ha)

  -- On a valid screen, with a 64-bit counter and a processor that describes itself in terminated
  -- texts, `ksh_exec` of every NUL-terminated line ends without a fault, and leaves a valid
  -- screen.
  pub ksh_exec-IsValid :
      (cmd : List ℕ) (n : ℕ) → NulAt n cmd → Yields (Leaves IsValid) (ksh_exec id ticks cmd s)
  unfolding ksh_exec
  ksh_exec-IsValid cmd n h = Yields-bind _ _ (strfnl-PointsIn cmd 32 n h) λ o p.
      Yields-bind _ _ (strfle-EndsIn cmd 32 n h) λ z q.
        let inside : behind z < length cmd =
          omega (arith, behind-EndsIn z n q, NulAt-length cmd n h) in
        let cut = NulAt-set cmd n (behind z) h in
        let (args, ha) = args_at-text o (set cmd (behind z) 0) n cut p in
        rw (lt→ltb _ _ inside) (exec_loop-IsValid (set cmd (behind z) 0) _ args n cut ha)

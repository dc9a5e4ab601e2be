-- ===== src/Idt/Gates.antt =====
-- arch/x86_64/idt.c, `idt_init`: what the processor finds in the gates.
use feudos.Prelude.{
  ℕ, suc, ◌+◌, ◌*◌, ◌^◌, ◌<◌, ◌≤◌, ◌≡◌, inl, inr, ◌∙◌, refl, some, Option, List, arith, ◌==◌,
  Bool-cases, length, get_elem?, set, length-set, get_elem?-set_self, get_elem?-set_ne, lt→ltb,
  Yields, Yields-mono, for_range_inv,
}
use feudos.Idt.{IdtEntry, gate, idt_set_gate, idt_init}

-- The address that the processor puts together.
abbrev pub target : IdtEntry → ℕ
target e = e.offset_low + e.offset_mid * 2 ^ 16 + e.offset_high * 2 ^ 32

gate-target : (addr : ℕ) → addr < 2 ^ 64 → target (gate addr) ≡ addr
unfolding gate
gate-target addr h = omega arith

-- An interrupt gate in ring 0 of the kernel's code segment, to this address.
abbrev pub Leads : ℕ → Option IdtEntry → Type 0
Leads addr o =
    (e : IdtEntry) × (o ≡ some e) × (target e ≡ addr) × (e.selector ≡ 0x08) × (e.type_attr ≡ 0x8E)

-- The gates below n are set, the others are as before.
abbrev pub Set : (ℕ → ℕ) → List IdtEntry → ℕ → List IdtEntry → Type 0
Set isr start n idt =
    (length idt ≡ 256)
    × ((k : ℕ) → k < n → get_elem? idt k ≡ some (gate (isr k)))
    × ((k : ℕ) → n ≤ k → get_elem? idt k ≡ get_elem? start k)

idt_set_gate-Set :
    (isr : ℕ → ℕ) (start idt : List IdtEntry) (n : ℕ)
    → n < 256
    → Set isr start n idt
    → Yields (Set isr start (suc n)) (idt_set_gate n (isr n) idt)
unfolding idt_set_gate
idt_set_gate-Set isr start idt n h (size, done, rest) =
    let inside : n < length idt = omega (arith, size) in
    rw (lt→ltb n (length idt) inside) (
      set idt n (gate (isr n)),
      refl,
      (
        length-set idt n _ ∙ size,
        λ k hk. elim (Bool-cases (k == n)) [
          | inl e ↦ let f : k ≡ n = ground arith in rw f (get_elem?-set_self idt n _ inside)
          | inr e ↦ get_elem?-set_ne idt _ (ground arith) ∙ done k (ground arith)
        ],
        λ k hk. get_elem?-set_ne idt _ (omega arith) ∙ rest k (omega arith),
      ),
    )

pub idt_init-Set :
    (isr : ℕ → ℕ) (idt : List IdtEntry)
    → length idt ≡ 256
    → Yields (Set isr idt 48) (idt_init isr idt)
unfolding idt_init
idt_init-Set isr idt size =
    for_range_inv (Set isr idt) (λ k. idt_set_gate k (isr k)) 48 0 48 (omega arith)
      (λ k t _ hk p. idt_set_gate-Set isr idt t k (omega arith) p) idt
      (size, (λ k hk. absurd (omega arith)), (λ k hk. refl))

pub gate-Leads :
    (isr : ℕ → ℕ) (idt : List IdtEntry) (k : ℕ)
    → isr k < 2 ^ 64
    → get_elem? idt k ≡ some (gate (isr k))
    → Leads (isr k) (get_elem? idt k)
unfolding gate
gate-Leads isr idt k small e = (gate (isr k), e, gate-target (isr k) small, refl, refl)

-- Of a table of 256 gates, `idt_init` makes the vectors 0 to 47 lead to their routines, whose
-- addresses have 64 bits, as interrupt gates of ring 0 in the kernel's code segment, and leaves
-- the others.
pub idt_init-Leads :
    (isr : ℕ → ℕ) (idt : List IdtEntry)
    → length idt ≡ 256
    → ((k : ℕ) → isr k < 2 ^ 64)
    → Yields
        (λ t.
          ((k : ℕ) → k < 48 → Leads (isr k) (get_elem? t k))
          × ((k : ℕ) → 48 ≤ k → get_elem? t k ≡ get_elem? idt k))
        (idt_init isr idt)
idt_init-Leads isr idt size small =
    Yields-mono _ (idt_init-Set isr idt size)
      λ t (_, done, rest). ((λ k hk. gate-Leads isr t k (small k) (done k hk)), rest)

-- ===== src/Interrupts/Gates.antt =====
-- What the descriptors of kernel/gdt.c and kernel/idt.c say to the processor.
use claude_os_20day_challeng.Base.{
  ℕ, zero, suc, ◌+◌, ◌*◌, ◌/◌, ◌%◌, ◌^◌, ◌<◌, ◌≡◌, refl, sym, ap, ap₂, ◌∙◌, Bool, true, false, not,
  ◌&&◌, ◌||◌, List, [], ◌∷◌, ◌++◌, ltb, leb, ◌==◌, if◌then◌else◌, Bool-cases, inl, inr, arith,
}
use claude_os_20day_challeng.Interrupts.{
  GdtEntry, gdt_gate, IdtEntry, zero_gate, idt_set_gate, clear_gates, gate_flags, set_gates, range,
  vectors, idt_init,
}

-- The base and the limit that a descriptor stands for.
abbrev pub segment_base : GdtEntry → ℕ
segment_base e = e.base_low + e.base_middle * 2 ^ 16 + e.base_high * 2 ^ 24

abbrev pub segment_limit : GdtEntry → ℕ
segment_limit e = e.limit_low + e.granularity % 16 * 2 ^ 16

-- The parts of the base come together again; of the limit the low 20 bits are kept, and of the
-- granularity the high four.
pub gdt_gate-segment_base :
    (base limit access gran : ℕ)
    → base < 2 ^ 32
    → gran < 2 ^ 8
    → let e = gdt_gate base limit access gran in
      (segment_base e ≡ base)
      × (segment_limit e ≡ limit % 2 ^ 20)
      × (e.access ≡ access)
      × (e.granularity / 16 ≡ gran / 16)
unfolding gdt_gate
gdt_gate-segment_base base limit access gran low low' =
    (omega arith, omega arith, refl, omega arith)

-- What the processor calls at a vector: none without a gate that is present.
abbrev pub entry_point : IdtEntry → ℕ
entry_point e = e.base_low + e.base_high * 2 ^ 16

clear_gates-zero_gate :
    (count i : ℕ) (table : ℕ → IdtEntry) (n : ℕ)
    → clear_gates count i table n ≡ (if leb i n && ltb n (i + count) then zero_gate else table n)
unfolding clear_gates
clear_gates-zero_gate zero i table n = ground arith
clear_gates-zero_gate (suc count) i table n =
    let rest = clear_gates-zero_gate count (suc i) (λ j. if j == i then zero_gate else table j) n in
    ground (arith, rest)

abbrev pub in_vectors : ℕ → List ℕ → Bool
in_vectors n [] = false
in_vectors n (m ∷ ms) = n == m || in_vectors n ms

abbrev pub kernel_gate : ℕ → IdtEntry
kernel_gate base = record {
  base_low = base % 2 ^ 16;
  selector = 0x08;
  always0 = 0;
  flags = gate_flags;
  base_high = base / 2 ^ 16 % 2 ^ 16;
}

either : (b : Bool) (x y : IdtEntry) → y ≡ x → (if b then x else y) ≡ x
either true x y e = refl
either false x y e = e

reached : {a b : ℕ} → (a == b) ≡ true → a ≡ b
reached t = ground arith

set_gates-kernel_gate :
    (handler : ℕ → ℕ) (ns : List ℕ) (table : ℕ → IdtEntry) (n : ℕ)
    → set_gates handler ns table n ≡ (if in_vectors n ns then kernel_gate (handler n) else table n)
unfolding set_gates idt_set_gate
set_gates-kernel_gate handler [] table n = refl
set_gates-kernel_gate handler (m ∷ ms) table n =
    set_gates-kernel_gate handler ms (idt_set_gate m (handler m) 0x08 gate_flags table) n
    ∙ elim (Bool-cases (n == m)) [
      | inl here ↦ rw here (
          either (in_vectors n ms) (kernel_gate (handler n)) (kernel_gate (handler m))
            (ap (λ k. kernel_gate (handler k)) (sym (reached here))))
      | inr apart ↦ rw apart refl
    ]

range-in_vectors : (n i count : ℕ) → in_vectors n (range i count) ≡ (leb i n && ltb n (i + count))
range-in_vectors n i zero = ground arith
range-in_vectors n i (suc count) =
    let rest = range-in_vectors n (suc i) count in ground (arith, rest)

append-in_vectors :
    (n : ℕ) (xs ys : List ℕ) → in_vectors n (xs ++ ys) ≡ (in_vectors n xs || in_vectors n ys)
append-in_vectors n [] ys = refl
append-in_vectors n (x ∷ xs) ys = let rest = append-in_vectors n xs ys in ground (arith, rest)

-- The vectors with a handler.
abbrev pub handled : ℕ → Bool
handled n = (ltb n 15 && not (n == 9)) || (leb 32 n && ltb n 48)

vectors-handled : (n : ℕ) → in_vectors n vectors ≡ handled n
vectors-handled n =
    append-in_vectors n (range 0 9) (range 10 5 ++ range 32 16)
    ∙ ap₂ (λ a b. a || b) (range-in_vectors n 0 9)
        (append-in_vectors n (range 10 5) (range 32 16)
          ∙ ap₂ (λ a b. a || b) (range-in_vectors n 10 5) (range-in_vectors n 32 16))
    ∙ ground arith

kernel_gate-entry_point : (base : ℕ) → base < 2 ^ 32 → entry_point (kernel_gate base) ≡ base
kernel_gate-entry_point base low = omega arith

cleared : (n : ℕ) → n < 256 → (leb 0 n && ltb n (0 + 256)) ≡ true
cleared n inside = ground arith

-- After `idt_init` the vectors 0 to 14 but 9 and the vectors 32 to 47 have present gates of the kernel,
-- whose parts come together to the address of the entry point, and every other entry is cleared.
pub idt_init-handled :
    (handler : ℕ → ℕ) (table : ℕ → IdtEntry) (n : ℕ)
    → n < 256
    → handler n < 2 ^ 32
    → (idt_init handler table n ≡ (if handled n then kernel_gate (handler n) else zero_gate))
      × (handled n ≡ true → entry_point (idt_init handler table n) ≡ handler n)
unfolding idt_init
idt_init-handled handler table n inside low =
    let is : idt_init handler table n ≡ (if handled n then kernel_gate (handler n) else zero_gate) =
      set_gates-kernel_gate handler vectors (clear_gates 256 0 table) n
      ∙ ap₂ (λ (b : Bool) e. if b then kernel_gate (handler n) else e) (vectors-handled n)
          (clear_gates-zero_gate 256 0 table n
            ∙ ap (λ (b : Bool). if b then zero_gate else table n) (cleared n inside)) in
    (
      is,
      (λ h.
          ap entry_point
            (is ∙ ap (λ (b : Bool). if b then kernel_gate (handler n) else zero_gate) h)
          ∙ kernel_gate-entry_point (handler n) low),
    )

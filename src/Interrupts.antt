-- ===== src/Interrupts.antt =====
-- The descriptor tables of kernel/gdt.c and kernel/idt.c, and the dispatch of interrupts in kernel/isr.c.
-- The addresses of the entry points, which are assembly, are a parameter; loading the tables into the
-- processor is left out.
mod Gates
mod Tests
use claude_os_20day_challeng.Base.{
  ℕ, zero, suc, ◌+◌, ◌-◌, ◌*◌, ◌/◌, ◌%◌, ◌^◌, Bool, true, false, Option, none, some, List, [], ◌∷◌,
  ◌++◌, ltb, leb, ◌==◌, if◌then◌else◌,
}
use claude_os_20day_challeng.Clock.{Clock, timer_handler}
use claude_os_20day_challeng.Keyboard.{Keyboard}
use claude_os_20day_challeng.Keyboard

-- `struct gdt_entry`.
pub record GdtEntry : Type 0 where
  pub limit_low : ℕ
  pub base_low : ℕ
  pub base_middle : ℕ
  pub access : ℕ
  pub granularity : ℕ
  pub base_high : ℕ

-- `gdt_set_gate`: the entry that is written; the two halves of the granularity do not overlap.
unfoldable pub gdt_gate : ℕ → ℕ → ℕ → ℕ → GdtEntry
gdt_gate base limit access gran = record {
  limit_low = limit % 2 ^ 16;
  base_low = base % 2 ^ 16;
  base_middle = base / 2 ^ 16 % 2 ^ 8;
  access = access;
  granularity = limit / 2 ^ 16 % 16 + gran / 16 % 16 * 16;
  base_high = base / 2 ^ 24 % 2 ^ 8;
}

-- The table after `gdt_init`.
unfoldable pub gdt_init : List GdtEntry
unfolding gdt_gate
gdt_init =
    gdt_gate 0 0 0 0
    ∷ gdt_gate 0 0xFFFFFFFF 0x9A 0xCF
    ∷ gdt_gate 0 0xFFFFFFFF 0x92 0xCF
    ∷ gdt_gate 0 0xFFFFFFFF 0xFA 0xCF
    ∷ gdt_gate 0 0xFFFFFFFF 0xF2 0xCF
    ∷ []

-- `struct idt_entry`.
pub record IdtEntry : Type 0 where
  pub base_low : ℕ
  pub selector : ℕ
  pub always0 : ℕ
  pub flags : ℕ
  pub base_high : ℕ

abbrev pub zero_gate : IdtEntry
zero_gate = record { base_low = 0; selector = 0; always0 = 0; flags = 0; base_high = 0 }

-- `idt_set_gate`.
unfoldable pub idt_set_gate : ℕ → ℕ → ℕ → ℕ → (ℕ → IdtEntry) → ℕ → IdtEntry
idt_set_gate num base selector flags table i =
    if i == num
    then record {
      base_low = base % 2 ^ 16;
      selector = selector;
      always0 = 0;
      flags = flags;
      base_high = base / 2 ^ 16 % 2 ^ 16;
    }
    else table i

-- The loop that clears the entries, for the `count` last ones.
unfoldable pub clear_gates : ℕ → ℕ → (ℕ → IdtEntry) → ℕ → IdtEntry
clear_gates zero i table = table
clear_gates (suc count) i table =
    clear_gates count (suc i) (λ j. if j == i then zero_gate else table j)

-- Present, for the kernel, an interrupt gate.
abbrev pub gate_flags : ℕ
gate_flags = 0x8E

-- The calls of `idt_set_gate` for the vectors, with the addresses of their entry points.
unfoldable pub set_gates : (ℕ → ℕ) → List ℕ → (ℕ → IdtEntry) → ℕ → IdtEntry
unfolding idt_set_gate
set_gates handler [] table = table
set_gates handler (n ∷ ns) table =
    set_gates handler ns (idt_set_gate n (handler n) 0x08 gate_flags table)

-- `count` numbers from `n` on.
abbrev pub range : ℕ → ℕ → List ℕ
range n zero = []
range n (suc count) = n ∷ range (suc n) count

-- The exceptions 0 to 8 and 10 to 14, and the interrupts 32 to 47.
abbrev pub vectors : List ℕ
vectors = range 0 9 ++ (range 10 5 ++ range 32 16)

unfoldable pub idt_init : (ℕ → ℕ) → (ℕ → IdtEntry) → ℕ → IdtEntry
unfolding clear_gates set_gates
idt_init handler table = set_gates handler vectors (clear_gates 256 0 table)

-- `irq_handler`: the timer, the keyboard with the scancode at its port, or nothing.
unfoldable pub irq_handler : ℕ → ℕ → Clock × Keyboard → Clock × Keyboard
irq_handler int_no scancode (clock, keyboard) =
    if int_no == 32
    then (timer_handler clock, keyboard)
    else (if int_no == 33 then (clock, Keyboard.handler scancode keyboard) else (clock, keyboard))

-- The index of the exception that `isr_handler` names.
abbrev pub exception_index : ℕ → ℕ
exception_index int_no = if ltb int_no 15 then int_no else 15

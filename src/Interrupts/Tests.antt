-- ===== src/Interrupts/Tests.antt =====
-- Examples for kernel/gdt.c and kernel/idt.c.
use claude_os_20day_challeng.Base.{◌+◌, ◌*◌, ◌/◌, ◌≡◌, true, arith}
use claude_os_20day_challeng.Interrupts.{zero_gate, gdt_gate, idt_init}
use claude_os_20day_challeng.Interrupts.Gates.{
  segment_base, segment_limit, entry_point, kernel_gate, handled, gdt_gate-segment_base,
  idt_init-handled,
}

kernel_code :
    let e = gdt_gate 0 0xFFFFFFFF 0x9A 0xCF in
    (segment_base e ≡ 0)
    × (segment_limit e ≡ 0xFFFFF)
    × (e.access ≡ 0x9A)
    × (e.granularity / 16 ≡ 0xC)
kernel_code = gdt_gate-segment_base 0 0xFFFFFFFF 0x9A 0xCF (omega arith) (omega arith)

idt_init-handled_example :
    (idt_init (λ n. 0x101000 + n * 16) (λ n. zero_gate) 33 ≡ kernel_gate 0x101210)
    × (handled 33 ≡ true
        → entry_point (idt_init (λ n. 0x101000 + n * 16) (λ n. zero_gate) 33) ≡ 0x101210)
idt_init-handled_example =
    idt_init-handled (λ n. 0x101000 + n * 16) (λ n. zero_gate) 33 (omega arith) (omega arith)

-- ===== src/Tests/Machine.antt =====
-- The descriptor tables, the interrupt dispatch and the timer.
use Prim.Native.Nat.{bit_and}
use os_learning.Base.{
  ℕ, ◌+◌, ◌*◌, ◌%◌, ◌^◌, ◌≤◌, ◌<◌, ◌≡◌, refl, ◌≢◌, true, false, not, [], ◌∷◌, arith, ltb, ◌==◌,
  if◌then◌else◌, ◌⊎◌,
}
use os_learning.Cpu.Gdt.{
  GdtEntry, zero_gdt_entry, gdt_set_gate, entry_base, entry_limit, entry_is_4k, entry_is_32bit,
}
use os_learning.Cpu.Descriptors.{gdt_set_gate-decode}
use os_learning.Cpu.Interrupt.{
  Cpu, outb, unhandled_irq, idt_init, isr_handler, irq_handler, register_interrupt_handler,
  get_tick,
}
use os_learning.Cpu.Gates.{GoesTo, idt_init-gates}
use os_learning.Cpu.Dispatch.{
  timer_irqs, isr_handler-register, irq_handler-eoi, get_tick-timer_irqs,
}

abbrev no_gates : ℕ → GdtEntry
no_gates i = zero_gdt_entry

gdt_set_gate-decode_example :
    let e = gdt_set_gate no_gates 3 0xB8000 0x7FFF 0x92 0x40 3 in
    (entry_base e ≡ 0xB8000)
    × (entry_limit e ≡ 0x7FFF % 2 ^ 20)
    × (e.access ≡ 0x92)
    × (entry_is_4k e ≡ not (bit_and 0x40 0x80 == 0))
    × (entry_is_32bit e ≡ not (bit_and 0x40 0x40 == 0))
    × ((i : ℕ) → (3 == i) ≡ false → gdt_set_gate no_gates 3 0xB8000 0x7FFF 0x92 0x40 i ≡ no_gates i)
gdt_set_gate-decode_example =
    gdt_set_gate-decode no_gates 3 0xB8000 0x7FFF 0x92 0x40 (omega arith) (omega arith)

abbrev pub idle : Cpu
idle = record {
  interrupt_handlers = λ v. 0;
  idt = λ v. record { offset_low = 0; selector = 0; reserved = 0; type_attr = 0; offset_high = 0 };
  in_interrupt_context = false;
  tick = 0;
  events = [];
}

abbrev isr_stub : ℕ → ℕ
isr_stub n = if ltb n 32 then 0xC0800000 + 16 * n else 0

abbrev irq_stub : ℕ → ℕ
irq_stub n = if ltb n 16 then 0xC0801000 + 16 * n else 0

idt_init-gates_example :
    let idt = (idt_init 0x80 isr_stub irq_stub 0xFC 0xFF idle).idt in
    ((n : ℕ) → n < 32 → GoesTo (idt n) (isr_stub n))
    × ((n : ℕ) → n < 16 → GoesTo (idt (32 + n)) (irq_stub n))
    × ((v : ℕ) → 48 ≤ v → v < 256 → (idt v).type_attr ≡ 0)
idt_init-gates_example =
    idt_init-gates 0x80 isr_stub irq_stub 0xFC 0xFF idle (λ n. (ground arith, ground arith))

abbrev invoke : ℕ → Cpu → Cpu
invoke handler c = record c { tick = handler }

isr_handler-register_example :
    let c' = register_interrupt_handler idle 14 0xC0805000 in
    (isr_handler invoke c' 14
      ≡ record (invoke 0xC0805000 (record c' { in_interrupt_context = true })) {
        in_interrupt_context = false;
      })
    × ((v : ℕ) → v ≢ 14 → c'.interrupt_handlers v ≡ idle.interrupt_handlers v)
isr_handler-register_example =
    isr_handler-register invoke idle 14 0xC0805000 (omega arith) (omega arith)

irq_handler-eoi_example :
    let sent = irq_handler (λ h d. d) idle 44 in
    ((44 < 40)
      × (sent.events ≡ (
          if idle.interrupt_handlers 44 == 0
          then unhandled_irq 44 ∷ outb 0x20 0x20 ∷ idle.events
          else outb 0x20 0x20 ∷ idle.events)))
    ⊎ ((40 ≤ 44)
        × (sent.events ≡ (
            if idle.interrupt_handlers 44 == 0
            then unhandled_irq 44 ∷ outb 0x20 0x20 ∷ outb 0xA0 0x20 ∷ idle.events
            else outb 0x20 0x20 ∷ outb 0xA0 0x20 ∷ idle.events)))
irq_handler-eoi_example = irq_handler-eoi idle 44 (omega arith) (omega arith)

abbrev ticking : Cpu
ticking = record idle { interrupt_handlers = λ v. if v == 32 then 0xC0803000 else 0 }

get_tick-timer_irqs_example :
    get_tick (timer_irqs 0xC0803000 1000 ticking) ≡ (get_tick ticking + 1000) % 2 ^ 32
get_tick-timer_irqs_example =
    get_tick-timer_irqs 0xC0803000 1000 ticking (omega arith) refl (omega arith)

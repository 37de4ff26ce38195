-- ===== src/Cpu.antt =====
-- The processor's tables: the GDT of 08.kernel-mm/kernel/mem/gdt.c, and the IDT, the dispatch of
-- interrupts and the PIC of interrupt/interrupt.c, with the timer of interrupt/timer.c.
pub mod Gdt
pub mod Descriptors
pub mod Interrupt
pub mod Gates
pub mod Dispatch

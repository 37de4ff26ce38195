-- ===== src/Cpu/Gates.antt =====
-- `idt_init` and `init_timer`: what the tables and the ports hold afterwards.
use os_learning.Base.{
  ℕ, zero, suc, ◌+◌, ◌-◌, ◌*◌, ◌%◌, ◌^◌, ◌≤◌, ◌<◌, ◌≡◌, refl, true, ◌&&◌, ltb, leb, if◌then◌else◌,
  update, arith,
}
use os_learning.Cpu.Interrupt.{
  Cpu, IdtEntry, idt_gate, idt_set_gate, make_attr, gate_attr, kernel_code_sel, clear_gates,
  set_gates, pic_init, idt_init,
}

clear_gates-at :
    (idt : ℕ → IdtEntry) (i left j : ℕ)
    → i + left ≤ 256
    → clear_gates idt i left j ≡ (if leb i j && ltb j (i + left) then idt_gate 0 0 0 else idt j)
unfolding clear_gates idt_set_gate
clear_gates-at idt i zero j h = ground arith
clear_gates-at idt i (suc left) j h =
    let e : i % 256 ≡ i = omega arith in
    ground (arith, e, clear_gates-at (update idt (i % 256) (idt_gate 0 0 0)) (suc i) left j)

set_gates-at :
    (stub : ℕ → ℕ) (idt : ℕ → IdtEntry) (vector i left j : ℕ)
    → vector + i + left ≤ 256
    → set_gates stub idt vector i left j ≡ (
        if leb (vector + i) j && ltb j (vector + i + left)
        then idt_gate (stub (j - vector)) kernel_code_sel gate_attr
        else idt j)
unfolding set_gates idt_set_gate
set_gates-at stub idt vector i zero j h = ground arith
set_gates-at stub idt vector i (suc left) j h =
    let e : (vector + i) % 256 ≡ vector + i = omega arith in
    ground (
      arith,
      e,
      set_gates-at stub
          (update idt ((vector + i) % 256) (idt_gate (stub i) kernel_code_sel gate_attr)) vector
          (suc i) left j,
    )

-- The handler's address that the processor puts together.
unfoldable pub gate_offset : IdtEntry → ℕ
gate_offset e = e.offset_low + e.offset_high * 65536

-- A present 32-bit interrupt gate of level 0 in the kernel's code segment, for the stub.
pub record GoesTo (e : IdtEntry) (stub : ℕ) : Type 0 where
  pub offset : gate_offset e ≡ stub
  pub segment : e.selector ≡ kernel_code_sel
  pub kind : e.type_attr ≡ make_attr true 0 0x0E
  pub zero_byte : e.reserved ≡ 0

GoesTo-idt_gate :
    (e : IdtEntry) (stub : ℕ)
    → stub < 2 ^ 32
    → e ≡ idt_gate stub kernel_code_sel gate_attr
    → GoesTo e stub
unfolding gate_offset idt_gate make_attr
GoesTo-idt_gate e stub h same =
    rw same (record { offset = omega arith; segment = refl; kind = refl; zero_byte = refl })

-- For stubs at 32-bit addresses, after `idt_init` vectors 0 to 31 lead to the exception stubs and
-- 32 to 47 to the IRQ stubs, by present 32-bit interrupt gates of level 0 in the kernel's code
-- segment, and vectors 48 to 255 have no present gate.
pub idt_init-gates :
    (io_delay_port : ℕ) (isr irq : ℕ → ℕ) (mask1 mask2 : ℕ) (c : Cpu)
    → ((n : ℕ) → (isr n < 2 ^ 32) × (irq n < 2 ^ 32))
    → let idt = (idt_init io_delay_port isr irq mask1 mask2 c).idt in
      ((n : ℕ) → n < 32 → GoesTo (idt n) (isr n))
      × ((n : ℕ) → n < 16 → GoesTo (idt (32 + n)) (irq n))
      × ((v : ℕ) → 48 ≤ v → v < 256 → (idt v).type_attr ≡ 0)
unfolding idt_init pic_init
idt_init-gates io_delay_port isr irq mask1 mask2 c small = (
  λ n h. GoesTo-idt_gate _ (isr n) (small n).0 (ground (arith, at n)),
  λ n h. GoesTo-idt_gate _ (irq n) (small n).1 (ground (arith, at (32 + n), back n)),
  λ v lo hi. unfold idt_gate in ground (arith, at v),
)
  where
    back : (n : ℕ) → 32 + n - 32 ≡ n
    back n = omega arith

    cleared : ℕ → IdtEntry
    cleared = clear_gates c.idt 0 256

    at :
        (v : ℕ)
        → (set_gates irq (set_gates isr cleared 0 0 32) 32 0 16 v ≡ (
            if leb (32 + 0) v && ltb v (32 + 0 + 16)
            then idt_gate (irq (v - 32)) kernel_code_sel gate_attr
            else set_gates isr cleared 0 0 32 v))
          × (set_gates isr cleared 0 0 32 v ≡ (
              if leb (0 + 0) v && ltb v (0 + 0 + 32)
              then idt_gate (isr (v - 0)) kernel_code_sel gate_attr
              else cleared v))
          × (cleared v ≡ (if leb 0 v && ltb v (0 + 256) then idt_gate 0 0 0 else c.idt v))
    at v = (
      set_gates-at irq (set_gates isr cleared 0 0 32) 32 0 16 v (omega arith),
      set_gates-at isr cleared 0 0 32 v (omega arith),
      clear_gates-at c.idt 0 256 v (omega arith),
    )

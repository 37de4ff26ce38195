-- ===== src/Cpu/Interrupt.antt =====
-- interrupt.c and timer.c: the IDT, the table of handlers, the dispatch, and the ports of the PIC
-- and the timer. What leaves the processor is a list of events, the latest first. The stubs of
-- interrupt.S are the addresses `isr n` and `irq n`; what a handler does is `invoke`.
use Prim.Native.Nat.{bit_and, bit_or}
use os_learning.Base.{
  ℕ, zero, suc, ◌+◌, ◌-◌, ◌/◌, ◌%◌, ◌^◌, Bool, true, false, not, ◌||◌, List, ◌∷◌, ltb, leb, ◌==◌,
  if◌then◌else◌, update,
}

pub record IdtEntry : Type 0 where
  pub offset_low : ℕ
  pub selector : ℕ
  pub reserved : ℕ
  pub type_attr : ℕ
  pub offset_high : ℕ

-- `outb(port, value)`, the messages of `vga_printf`, and `cli; hlt`
pub data Event : Type 0 where
  outb : ℕ → ℕ → Event
  unhandled_exception : ℕ → Event
  unhandled_interrupt : ℕ → Event
  unhandled_irq : ℕ → Event
  overwriting_handler : ℕ → Event
  pic_initialized : ℕ → ℕ → Event
  idt_initialized : Event
  load_idt : Event
  halt : Event

-- A handler is its address, 0 for none.
pub record Cpu : Type 0 where
  pub interrupt_handlers : ℕ → ℕ
  pub idt : ℕ → IdtEntry
  pub in_interrupt_context : Bool
  pub tick : ℕ
  pub events : List Event

abbrev pub emit : Cpu → Event → Cpu
emit c e = record c { events = e ∷ c.events }

unfoldable pub idt_gate : ℕ → ℕ → ℕ → IdtEntry
idt_gate base sel flags = record {
  offset_low = base % 65536;
  offset_high = base / 65536 % 65536;
  selector = sel;
  reserved = 0;
  type_attr = flags;
}

unfoldable pub idt_set_gate : (ℕ → IdtEntry) → ℕ → ℕ → ℕ → ℕ → ℕ → IdtEntry
idt_set_gate idt num base sel flags = update idt (num % 256) (idt_gate base sel flags)

-- IDT_MAKE_ATTR
unfoldable pub make_attr : Bool → ℕ → ℕ → ℕ
make_attr present dpl type =
    bit_or (bit_or (if present then 0x80 else 0) dpl) (bit_and type 0x0F) % 256

abbrev pub gate_attr : ℕ
gate_attr = 0x8E

-- GDT_KERNEL_CODE_SEL
abbrev pub kernel_code_sel : ℕ
kernel_code_sel = 8

-- The loop that clears the table, with the entries that are left.
unfoldable pub clear_gates : (ℕ → IdtEntry) → ℕ → ℕ → ℕ → IdtEntry
clear_gates idt i zero = idt
clear_gates idt i (suc left) = clear_gates (idt_set_gate idt i 0 0 0) (suc i) left

-- SET_ISR(n) and SET_IRQ(n) for n from `i`, `left` of them, at vectors from `vector`.
unfoldable pub set_gates : (ℕ → ℕ) → (ℕ → IdtEntry) → ℕ → ℕ → ℕ → ℕ → IdtEntry
set_gates stub idt vector i zero = idt
set_gates stub idt vector i (suc left) =
    set_gates stub (idt_set_gate idt (vector + i) (stub i) kernel_code_sel gate_attr) vector (suc i)
      left

-- The command ports: PIC1_CMD 0x20, PIC1_DATA 0x21, PIC2_CMD 0xA0, PIC2_DATA 0xA1, and the delay
-- port of `io_wait`.
module _ (io_delay_port : ℕ) where
  abbrev pub out_wait : Cpu → ℕ → ℕ → Cpu
  out_wait c port value = emit (emit c (outb port value)) (outb io_delay_port 0)

  -- `mask1` and `mask2` are what `inb` reads from the data ports.
  unfoldable pub pic_init : ℕ → ℕ → Cpu → ℕ → ℕ → Cpu
  pic_init mask1 mask2 c offset_vector_master offset_vector_slave =
      let c1 = out_wait (out_wait c 0x20 0x11) 0xA0 0x11 in
      let c2 = out_wait (out_wait c1 0x21 offset_vector_master) 0xA1 offset_vector_slave in
      let c3 = out_wait (out_wait c2 0x21 0x04) 0xA1 0x02 in
      let c4 = out_wait (out_wait c3 0x21 0x01) 0xA1 0x01 in
      emit (emit (emit c4 (outb 0x21 mask1)) (outb 0xA1 mask2))
        (pic_initialized offset_vector_master offset_vector_slave)

  unfoldable pub idt_init : (ℕ → ℕ) → (ℕ → ℕ) → ℕ → ℕ → Cpu → Cpu
  idt_init isr irq mask1 mask2 c =
      let cleared = clear_gates c.idt 0 256 in
      let table = set_gates irq (set_gates isr cleared 0 0 32) 32 0 16 in
      emit (emit (pic_init mask1 mask2 (record c { idt = table }) 0x20 0x28) load_idt)
        idt_initialized

unfoldable pub register_interrupt_handler : Cpu → ℕ → ℕ → Cpu
register_interrupt_handler c vector handler =
    let warned =
      if not (c.interrupt_handlers vector == 0) then emit c (overwriting_handler vector) else c in
    if ltb vector 256
    then record warned { interrupt_handlers = update c.interrupt_handlers vector handler }
    else warned

unfoldable pub pic_send_eoi : Cpu → ℕ → Cpu
pic_send_eoi c irq =
    let slave = if leb 8 irq then emit c (outb 0xA0 0x20) else c in emit slave (outb 0x20 0x20)

module _ (invoke : ℕ → Cpu → Cpu) where
  -- `isr_handler`, for the frame's interrupt number.
  unfoldable pub isr_handler : Cpu → ℕ → Cpu
  isr_handler c int_no =
      let entered = record c { in_interrupt_context = true } in
      let handled =
        if not (c.interrupt_handlers int_no == 0)
        then invoke (c.interrupt_handlers int_no) entered
        else if ltb int_no 32
        then (if int_no == 8 || (int_no == 13 || int_no == 14)
            then emit (emit entered (unhandled_exception int_no)) halt
            else emit entered (unhandled_exception int_no))
        else emit entered (unhandled_interrupt int_no) in
      record handled { in_interrupt_context = false }

  unfoldable pub irq_handler : Cpu → ℕ → Cpu
  irq_handler c int_no =
      let entered = record c { in_interrupt_context = true } in
      let acknowledged = pic_send_eoi entered ((int_no + (2 ^ 32 - 32)) % 256) in
      let handled =
        if not (c.interrupt_handlers int_no == 0)
        then invoke (c.interrupt_handlers int_no) acknowledged
        else emit acknowledged (unhandled_irq int_no) in
      record handled { in_interrupt_context = false }

unfoldable pub is_in_interrupt_context : Cpu → Bool
is_in_interrupt_context c = c.in_interrupt_context

unfoldable pub get_tick : Cpu → ℕ
get_tick c = c.tick

unfoldable pub timer_callback : Cpu → Cpu
timer_callback c = record c { tick = (c.tick + 1) % 2 ^ 32 }

-- `callback` is the address of `timer_callback`; `frequency` must not be 0.
unfoldable pub init_timer : Cpu → ℕ → ℕ → Cpu
init_timer c callback frequency =
    let registered = register_interrupt_handler c 32 callback in
    let divisor = 1193180 / frequency in
    let command = bit_or (bit_or (bit_or 0x00 0x06) 0x30) 0x01 in
    let low = emit (emit registered (outb 0x43 command)) (outb 0x40 (divisor % 256)) in
    emit low (outb 0x40 (divisor / 256 % 256))

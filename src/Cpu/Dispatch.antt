-- ===== src/Cpu/Dispatch.antt =====
-- `isr_handler`, `irq_handler` and the timer: which handler runs, and what is sent.
use os_learning.Base.{
  ℕ, zero, suc, ◌+◌, ◌-◌, ◌*◌, ◌/◌, ◌%◌, ◌^◌, ◌≤◌, ◌<◌, ◌≡◌, refl, ◌≢◌, true, false, ◌∷◌, ltb, ◌==◌,
  if◌then◌else◌, arith, ◌⊎◌, inl, inr, Bool-cases,
}
use os_learning.Cpu.Interrupt.{
  Cpu, outb, unhandled_irq, isr_handler, irq_handler, register_interrupt_handler,
  is_in_interrupt_context, pic_send_eoi, timer_callback, init_timer, get_tick,
}

-- For a handler's address other than 0 and a vector below 256, after `register_interrupt_handler`
-- `isr_handler` runs that handler for the vector, inside the interrupt context that it then leaves,
-- and every other vector keeps the handler that it had.
pub isr_handler-register :
    (invoke : ℕ → Cpu → Cpu) (c : Cpu) (vector handler : ℕ)
    → vector < 256
    → handler ≢ 0
    → let c' = register_interrupt_handler c vector handler in
      (isr_handler invoke c' vector
        ≡ record (invoke handler (record c' { in_interrupt_context = true })) {
          in_interrupt_context = false;
        })
      × ((v : ℕ) → v ≢ vector → c'.interrupt_handlers v ≡ c.interrupt_handlers v)
unfolding isr_handler register_interrupt_handler
isr_handler-register invoke c vector handler small some_handler =
    let inside : ltb vector 256 ≡ true = ground arith in
    let set : (handler == 0) ≡ false = ground arith in
    let same : (vector == vector) ≡ true = ground arith in
    (rw (inside, same, set), λ v ne. ground arith)

-- For a vector from 32 to 47 and handlers that do nothing, `irq_handler` sends the end of the
-- interrupt to the master, and to the slave before it exactly for vectors from 40 on, before it
-- reports a missing handler.
pub irq_handler-eoi :
    (c : Cpu) (n : ℕ)
    → 32 ≤ n
    → n < 48
    → let sent = irq_handler (λ h d. d) c n in
      ((n < 40)
        × (sent.events ≡ (
            if c.interrupt_handlers n == 0
            then unhandled_irq n ∷ outb 0x20 0x20 ∷ c.events
            else outb 0x20 0x20 ∷ c.events)))
      ⊎ ((40 ≤ n)
          × (sent.events ≡ (
              if c.interrupt_handlers n == 0
              then unhandled_irq n ∷ outb 0x20 0x20 ∷ outb 0xA0 0x20 ∷ c.events
              else outb 0x20 0x20 ∷ outb 0xA0 0x20 ∷ c.events)))
unfolding irq_handler pic_send_eoi
irq_handler-eoi c n lo hi =
    let irq : (n + (2 ^ 32 - 32)) % 256 ≡ n - 32 = omega arith in
    elim (Bool-cases (ltb n 40)) [
      | inl master ↦ inl (ground arith, ground (arith, irq))
      | inr slave ↦ inr (ground arith, ground (arith, irq))
    ]

-- Whatever the handlers do, and whether or not the interrupt arrived inside another one, the flag
-- says "not in an interrupt" when either dispatcher returns.
pub isr_handler-clears_context :
    (invoke : ℕ → Cpu → Cpu) (c : Cpu) (n : ℕ)
    → (is_in_interrupt_context (isr_handler invoke c n) ≡ false)
      × (is_in_interrupt_context (irq_handler invoke c n) ≡ false)
unfolding isr_handler irq_handler is_in_interrupt_context
isr_handler-clears_context invoke c n = (refl, refl)

-- The machine with the timer's callback at its address.
unfoldable pub invoke_timer : ℕ → ℕ → Cpu → Cpu
invoke_timer callback handler c = if handler == callback then timer_callback c else c

-- `rounds` timer interrupts.
unfoldable pub timer_irqs : ℕ → ℕ → Cpu → Cpu
timer_irqs callback zero c = c
timer_irqs callback (suc rounds) c =
    timer_irqs callback rounds (irq_handler (invoke_timer callback) c 32)

timer_irq :
    (callback : ℕ) (c : Cpu)
    → callback ≢ 0
    → c.interrupt_handlers 32 ≡ callback
    → let c' = irq_handler (invoke_timer callback) c 32 in
      (c'.tick ≡ (c.tick + 1) % 2 ^ 32) × (c'.interrupt_handlers 32 ≡ callback)
unfolding irq_handler pic_send_eoi invoke_timer timer_callback
timer_irq callback c ne there =
    let set : (callback == 0) ≡ false = ground arith in
    let same : (callback == callback) ≡ true = ground arith in rw (there, set, same) (refl, there)

-- With the timer's callback registered for IRQ 0 and the counter within 32 bits, after any number
-- of timer interrupts `getTick` has grown by that number modulo 2 ^ 32.
pub get_tick-timer_irqs :
    (callback rounds : ℕ) (c : Cpu)
    → callback ≢ 0
    → c.interrupt_handlers 32 ≡ callback
    → c.tick < 2 ^ 32
    → get_tick (timer_irqs callback rounds c) ≡ (get_tick c + rounds) % 2 ^ 32
unfolding timer_irqs get_tick
get_tick-timer_irqs callback zero c ne there small = omega arith
get_tick-timer_irqs callback (suc rounds) c ne there small =
    let (one, still) = timer_irq callback c ne there in
    omega (
      arith,
      one,
      get_tick-timer_irqs callback rounds (irq_handler (invoke_timer callback) c 32) ne still
          (omega (arith, one)),
    )

-- For a frequency from 19 Hz on, `init_timer` registers the callback, then programs channel 0 for
-- mode 3 with BCD counting (command 0x37), and sends the low and the high byte of the divisor as a
-- binary number.
pub init_timer-bcd :
    (c : Cpu) (callback frequency : ℕ)
    → 19 ≤ frequency
    → (low high : ℕ) × ((init_timer c callback frequency).events
        ≡ outb 0x40 high
          ∷ outb 0x40 low
          ∷ outb 0x43 0x37
          ∷ (register_interrupt_handler c 32 callback).events)
      × (low + 256 * high ≡ 1193180 / frequency)
unfolding init_timer
init_timer-bcd c callback frequency h =
    let small : 1193180 / frequency < 65536 = grind arith in
    (1193180 / frequency % 256, 1193180 / frequency / 256 % 256, refl, omega arith)

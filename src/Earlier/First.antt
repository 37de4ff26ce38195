-- ===== src/Earlier/First.antt =====
-- `vga_itoa` of the step before that, 06.refactoring/kernel/drivers/vga.c, which does not know how
-- large its buffer is.
pub mod Fits
use os_learning.Base.{
  ℕ, zero, suc, ◌+◌, ◌-◌, ◌*◌, ◌/◌, ◌%◌, ◌^◌, Bool, ◌&&◌, List, [], ◌∷◌, Option, none, some, leb,
  ◌==◌, if◌then◌else◌, update,
}
use os_learning.Vga.Digits.{digit_char}
use os_learning.Earlier.{swap_loop}

-- The `do … while (v)`, with fuel for its rounds; `none` is that it runs out.
unfoldable pub first_digits : ℕ → ℕ → ℕ → (ℕ → ℕ) → ℕ → Option ((ℕ → ℕ) × ℕ)
first_digits zero base v buf p = none
first_digits (suc fuel) base v buf p =
    let buf' = update buf p (digit_char (v % base)) in
    let rest = first_digits fuel base (v / base) buf' (suc p) in
    if v / base == 0 then some (buf', suc p) else rest

-- The buffer afterwards, and how many characters stand before the NUL.
unfoldable pub first_itoa : ℕ → ℕ → (ℕ → ℕ) → ℕ → Option ((ℕ → ℕ) × ℕ)
first_itoa fuel value buf base =
    let is_negative = base == 10 && leb (2 ^ 31) value in
    let v = if is_negative then (2 ^ 32 - value) % 2 ^ 32 else value in
    elim (first_digits fuel base v buf 0) [
      | none ↦ none
      | some (digits, p) ↦
          let buf' = if is_negative then update digits p b'-' else digits in
          let p' = if is_negative then suc p else p in
          some (swap_loop p' 0 (p' - 1) (update buf' p' 0), p')
    ]

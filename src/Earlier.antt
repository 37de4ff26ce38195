-- ===== src/Earlier.antt =====
-- The text screen as the step before has it, 07.kernel-idt/kernel/drivers/vga.c, where it differs:
-- `vga_putc` knows no tab, carriage return or backspace, and `vga_itoa` turns its digits round in
-- the buffer. The record of the screen is the one of the last step.
pub mod Digits
pub mod Texts
pub mod Messages
pub mod First
use os_learning.Base.{
  ℕ, zero, suc, ◌+◌, ◌-◌, ◌*◌, ◌/◌, ◌%◌, ◌^◌, Bool, true, false, ◌&&◌, ◌||◌, List, [], ◌∷◌, ◌++◌,
  Option, none, some, ltb, leb, ◌==◌, if◌then◌else◌, update,
}
use os_learning.OrderedArray.Contents.{slots}
use os_learning.Vga.{Vga, vga_width, vga_height, sync_cursor, cell, scroll, position, wrap_line}
use os_learning.Vga.Digits.{digit_char}
use os_learning.Vga.Printf.{Arg, Taken, take_word, take_text, is_x, is_d}

unfoldable pub old_putc : Vga → ℕ → Vga
old_putc s c =
    let put =
      if c == 10
      then record s { cursor_row = (s.cursor_row + 1) % 256; cursor_col = 0 }
      else let written = record s { buf = update s.buf (position s) (cell s.current_color c) } in
        wrap_line written ((s.cursor_col + 1) % 256) in
    sync_cursor (if leb vga_height put.cursor_row then scroll put else put)

unfoldable pub old_write : Vga → List ℕ → Vga
old_write s [] = s
old_write s (c ∷ cs) = old_write (old_putc s c) cs

-- The `do … while (v)` that writes the digits into the buffer from `p` on, with room for so many:
-- the buffer, and the place behind them.
unfoldable pub old_digits : ℕ → ℕ → (ℕ → ℕ) → ℕ → ℕ → (ℕ → ℕ) × ℕ
old_digits base v buf p zero = (buf, p)
old_digits base v buf p (suc room) =
    let buf' = update buf p (digit_char (v % base)) in
    let rest = old_digits base (v / base) buf' (suc p) room in
    if v / base == 0 then (buf', suc p) else rest

-- `for (char *a = buf, *b = p - 1; a < b; a++, b--)`, with fuel for its rounds.
unfoldable pub swap_loop : ℕ → ℕ → ℕ → (ℕ → ℕ) → ℕ → ℕ
swap_loop zero a b buf = buf
swap_loop (suc fuel) a b buf =
    let rest = swap_loop fuel (suc a) (b - 1) (update (update buf a (buf b)) b (buf a)) in
    if ltb a b then rest else buf

-- The string in the buffer afterwards; `value` is an `int` as its bit pattern.
unfoldable pub old_itoa : ℕ → (ℕ → ℕ) → ℕ → ℕ → List ℕ
old_itoa value buf base buf_size =
    if buf_size == 0
    then []
    else let is_negative = base == 10 && leb (2 ^ 31) value in
      let v = if is_negative then (2 ^ 32 - value) % 2 ^ 32 else value in
      let (digits, p) = old_digits base v buf 0 (buf_size - 1) in
      let signed = is_negative && ltb p (buf_size - 1) in
      let buf' = if signed then update digits p b'-' else digits in
      let p' = if signed then suc p else p in
      slots (swap_loop p' 0 (p' - 1) (update buf' p' 0)) 0 p'

-- The conversion that `c` names, behind a `%`; `buf` is what the buffer on the stack holds.
unfoldable pub old_convert : (ℕ → ℕ) → ℕ → List Arg → Taken
old_convert buf c args =
    if c == b'c'
    then take_word (λ v. (v % 256) ∷ []) args
    else if c == b's'
    then take_text args
    else if is_d c
    then take_word (λ v. old_itoa v buf 10 64) args
    else if is_x c
    then take_word (λ v. old_itoa v buf 16 64) args
    else if c == b'%'
    then some (b'%' ∷ [], args)
    else some (b'%' ∷ c ∷ [], args)

-- What a format and its arguments put on the screen; `true` is behind a `%`. A format that ends
-- there makes the loop go on behind its NUL, which is `none` as an argument that is missing.
unfoldable pub old_format : (ℕ → ℕ) → Bool → List ℕ → List Arg → Option (List ℕ)
old_format buf percent [] args = if percent then none else some []
old_format buf false (c ∷ fmt) args =
    let literal : Option (List ℕ) = elim (old_format buf false fmt args) [
      | none ↦ none
      | some rest ↦ some (c ∷ rest)
    ] in
    let behind = old_format buf true fmt args in if c == b'%' then behind else literal
old_format buf true (c ∷ fmt) args = elim (old_convert buf c args) [
  | none ↦ none
  | some (out, left) ↦ elim (old_format buf false fmt left) [
    | none ↦ none
    | some rest ↦ some (out ++ rest)
  ]
]

unfoldable pub old_printf : (ℕ → ℕ) → Vga → List ℕ → List Arg → Option Vga
old_printf buf s fmt args = elim (old_format buf false fmt args) [
  | none ↦ none
  | some out ↦ some (old_write s out)
]

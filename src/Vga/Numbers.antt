-- ===== src/Vga/Numbers.antt =====
-- The text of a number reads back as the number.
use native.Mathlib.Nat.{pow-suc, pow-zero, div-add-mod, div-lt_iff_lt-mul}
use mathlib.Core.List.{reverse, reverse_aux}
use os_learning.Base.{
  ℕ, zero, suc, ◌+◌, ◌-◌, ◌*◌, ◌/◌, ◌%◌, ◌^◌, ◌≤◌, ◌<◌, ◌≡◌, refl, sym, subst, ap, ◌∙◌, ◌≢◌, true,
  false, some, List, [], ◌∷◌, ltb, leb, ◌==◌, length, arith, ◌⊎◌, inl, inr, Bool-cases, lt→ltb,
}
use os_learning.Vga.Digits.{digits_loop, utoa, itoa}
use os_learning.Vga.Reading.{
  parse, parse-some, is_zero_text, is_digit, are_digits, starts, read_digits, digit_value,
  low_value, read_digits-reverse, digit_value-digit_char, are_digits-digits_loop,
  starts-digits_loop,
}

pub low_value-digits_loop :
    (base value room : ℕ)
    → 2 ≤ base
    → base ≤ 16
    → value < base ^ room
    → low_value base (digits_loop base value room) ≡ value
unfolding low_value digits_loop
low_value-digits_loop base value zero lo hi h = omega (arith, pow-zero base)
low_value-digits_loop base value (suc room) lo hi h =
    let pos : 0 < base = omega arith in
    let small : value / base < base ^ room =
      (div-lt_iff_lt-mul pos).1 (subst (λ n. value < n) (pow-suc base room) h) in
    let split : value / base * base + value % base ≡ value =
      grind (arith, div-add-mod value base) in
    rw digit_value-digit_char (elim (Bool-cases (value / base == 0)) [
      | inl last ↦ rw last (ground (arith, split))
      | inr more ↦ rw (more, low_value-digits_loop base (value / base) room lo hi small) split
    ])

abbrev ReadsBack : ℕ → ℕ → ℕ → Type 0
ReadsBack value buf_size base =
    value < base ^ (buf_size - 1) → parse base (utoa value base buf_size) ≡ some value

pub parse-zero : (base : ℕ) → parse base (b'0' ∷ []) ≡ some 0
unfolding parse read_digits digit_value are_digits is_digit starts is_zero_text
parse-zero base = let z : 0 * base + 0 ≡ 0 = omega arith in ap (λ n. some n) z

module _ (value buf_size : ℕ) (room : 2 ≤ buf_size) where
  utoa-zero : (base : ℕ) → value ≡ 0 → utoa value base buf_size ≡ b'0' ∷ []
  unfolding utoa
  utoa-zero base e =
      let a : (value == 0) ≡ true = ground arith in
      let b : (buf_size == 0) ≡ false = ground arith in
      let c : ltb 0 (buf_size - 1) ≡ true = ground arith in rw (a, b, c)

  utoa-ten : value ≢ 0 → utoa value 10 buf_size ≡ reverse (digits_loop 10 value (buf_size - 1))
  unfolding utoa
  utoa-ten ne =
      let a : (value == 0) ≡ false = ground arith in
      let b : (buf_size == 0) ≡ false = ground arith in rw (a, b)

  utoa-sixteen : value ≢ 0 → utoa value 16 buf_size ≡ reverse (digits_loop 16 value (buf_size - 1))
  unfolding utoa
  utoa-sixteen ne =
      let a : (value == 0) ≡ false = ground arith in
      let b : (buf_size == 0) ≡ false = ground arith in rw (a, b)

  reads-zero : (base : ℕ) → value ≡ 0 → ReadsBack value buf_size base
  reads-zero base e small = rw (utoa-zero base e) (parse-zero base ∙ ap (λ n. some n) (sym e))

  -- The digits of a number that is not 0.
  reads-digits :
      (base : ℕ)
      → (base ≡ 10) ⊎ (base ≡ 16)
      → 2 ≤ base
      → base ≤ 16
      → value ≢ 0
      → value < base ^ (buf_size - 1)
      → parse base (reverse (digits_loop base value (buf_size - 1))) ≡ some value
  reads-digits base which lo hi ne small =
      parse-some base value (reverse (digits_loop base value (buf_size - 1)))
        (are_digits-digits_loop base value (buf_size - 1) which)
        (starts-digits_loop base value (buf_size - 1) which ne small)
        (read_digits-reverse base (digits_loop base value (buf_size - 1))
          ∙ low_value-digits_loop base value (buf_size - 1) lo hi small)

  pub reads-ten : ReadsBack value buf_size 10
  reads-ten small = elim (Bool-cases (value == 0)) [
    | inl e ↦ reads-zero 10 (ground arith) small
    | inr ne ↦
        let some_value : value ≢ 0 = ground arith in
        ap (parse 10) (utoa-ten some_value)
        ∙ reads-digits 10 (inl refl) (omega arith) (omega arith) some_value small
  ]

  reads-sixteen : ReadsBack value buf_size 16
  reads-sixteen small = elim (Bool-cases (value == 0)) [
    | inl e ↦ reads-zero 16 (ground arith) small
    | inr ne ↦
        let some_value : value ≢ 0 = ground arith in
        ap (parse 16) (utoa-sixteen some_value)
        ∙ reads-digits 16 (inr refl) (omega arith) (omega arith) some_value small
  ]

  -- In base 10 and in base 16, into a buffer of at least two bytes, the text that `vga_utoa` makes
  -- of a number below base ^ (buf_size - 1) reads back as the number.
  pub parse-utoa :
      (base : ℕ)
      → (base ≡ 10) ⊎ (base ≡ 16)
      → value < base ^ (buf_size - 1)
      → parse base (utoa value base buf_size) ≡ some value
  parse-utoa base (inl ten) = subst (ReadsBack value buf_size) (sym ten) reads-ten
  parse-utoa base (inr sixteen) = subst (ReadsBack value buf_size) (sym sixteen) reads-sixteen

-- A number below 10 ^ k has at most k digits.
length-digits_loop :
    (value room k : ℕ) → value < 10 ^ suc k → length (digits_loop 10 value room) ≤ suc k
unfolding digits_loop
length-digits_loop value zero k h = omega arith
length-digits_loop value (suc room) zero h =
    let last : (value / 10 == 0) ≡ true = ground arith in rw last (omega arith)
length-digits_loop value (suc room) (suc k) h =
    let small : value / 10 < 10 ^ suc k =
      (div-lt_iff_lt-mul (omega arith)).1 (subst (λ n. value < n) (pow-suc 10 (suc k)) h) in
    ground (arith, length-digits_loop (value / 10) room k small)

length-reverse_aux : (xs ys : List ℕ) → length (reverse_aux xs ys) ≡ length xs + length ys
length-reverse_aux [] ys = omega arith
length-reverse_aux (x ∷ xs) ys = omega (arith, length-reverse_aux xs (x ∷ ys))

-- `vga_itoa` in base 10 into 64 bytes, of the bit pattern of an `int`: the text of a number from 0
-- on reads back as the number, and that of a negative one, the least one included, is a minus sign
-- before a text that reads back as its magnitude. The reading is strict: it refuses an empty text,
-- a character that is no digit of the base, and a leading zero but for the text of 0.
pub parse-itoa :
    (value : ℕ)
    → value < 2 ^ 32
    → ((value < 2 ^ 31) × (parse 10 (itoa value 10 64) ≡ some value))
      ⊎ ((2 ^ 31 ≤ value)
          × ((text : List ℕ) × (itoa value 10 64 ≡ b'-' ∷ text)
              × (parse 10 text ≡ some (2 ^ 32 - value))))
unfolding itoa
parse-itoa value word = elim (Bool-cases (leb (2 ^ 31) value)) [
  | inr small ↦ inl (ground arith, rw small (reads-ten value 64 (omega arith) (omega arith)))
  | inl big ↦
      let low : 2 ^ 31 ≤ value = ground arith in
      let magnitude : (2 ^ 32 - value) % 2 ^ 32 ≡ 2 ^ 32 - value = omega arith in
      let text = utoa (2 ^ 32 - value) 10 64 in
      let room : ltb (length text + 1) 64 ≡ true = lt→ltb _ _ (omega (arith, short low)) in
      inr (
        low,
        (
          text,
          rw (big, magnitude, room),
          reads-ten (2 ^ 32 - value) 64 (omega arith) (omega arith),
        ),
      )
]
  where
    short : 2 ^ 31 ≤ value → length (utoa (2 ^ 32 - value) 10 64) ≤ 10
    short low = rw (utoa-ten (2 ^ 32 - value) 64 (omega arith) (omega arith)) (
        omega (
          arith,
          length-reverse_aux (digits_loop 10 (2 ^ 32 - value) 63) [],
          length-digits_loop (2 ^ 32 - value) 63 9 (omega arith),
        ))

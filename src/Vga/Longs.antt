-- ===== src/Vga/Longs.antt =====
-- `vga_ulltoa`: subtraction of powers of ten in place of a 64-bit division.
use native.Mathlib.Nat.{
  pow-suc, div-add-mod, div-lt_iff_lt-mul, mod-lt, add-mul, mul_assoc, mul_comm,
}
use mathlib.Core.List.{reverse}
use os_learning.Base.{
  ℕ, zero, suc, ◌+◌, ◌-◌, ◌*◌, ◌/◌, ◌%◌, ◌^◌, ◌≤◌, ◌<◌, ◌≡◌, refl, sym, subst, ap, ◌∙◌, ◌≢◌, Bool,
  ◌&&◌, some, true, false, List, [], ◌∷◌, leb, ◌==◌, arith, ◌⊎◌, inl, inr, Bool-cases, ==_iff,
}
use os_learning.Vga.Digits.{subtract_power, powers_loop, digits_loop, ulltoa}
use os_learning.Vga.Numbers.{parse-zero, low_value-digits_loop}
use os_learning.Vga.Reading.{
  parse, parse-some, read_digits, digit_value, are_digits, starts, is_digit, read_digits-reverse,
  are_digits-digits_loop, starts-digits_loop,
}

-- The digit and the rest.
subtract_power-eq :
    (fuel q r p d : ℕ) → r < p → q < fuel → subtract_power fuel (q * p + r) p d ≡ (d + q, r)
unfolding subtract_power
subtract_power-eq zero q r p d lo hi = absurd (omega arith)
subtract_power-eq (suc fuel) zero r p d lo hi =
    let over : leb p (zero * p + r) ≡ false = ground arith in
    let none_left : zero * p + r ≡ r = omega arith in
    let same : d + 0 ≡ d = omega arith in rw (over, none_left, same) refl
subtract_power-eq (suc fuel) (suc q) r p d lo hi =
    let all : suc q * p ≡ q * p + p = omega (arith, add-mul q 1 p) in
    let under : leb p (suc q * p + r) ≡ true = ground arith in
    let left : suc q * p + r - p ≡ q * p + r = omega arith in
    let more : d + 1 + q ≡ d + suc q = omega arith in
    rw (under, left, subtract_power-eq fuel q r p (d + 1) lo (omega arith), more) refl

-- `powers` is the case of 20.
abbrev powers_of : ℕ → List ℕ
powers_of zero = []
powers_of (suc k) = 10 ^ k ∷ powers_of k

pow-pos : (k : ℕ) → 0 < 10 ^ k
pow-pos zero = omega arith
pow-pos (suc k) = omega (arith, pow-suc 10 k, pow-pos k)

-- One digit of a number below ten times the power, and what is left.
digit-split :
    (value k : ℕ)
    → value < 10 ^ suc k
    → (value / 10 ^ k * 10 ^ k + value % 10 ^ k ≡ value)
      × (value / 10 ^ k < 10)
      × (value % 10 ^ k < 10 ^ k)
      × (subtract_power 10 value (10 ^ k) 0 ≡ (0 + value / 10 ^ k, value % 10 ^ k))
digit-split value k small =
    let pos : 0 < 10 ^ k = pow-pos k in
    let split : value / 10 ^ k * 10 ^ k + value % 10 ^ k ≡ value =
      grind (arith, div-add-mod value (10 ^ k)) in
    let digit : value / 10 ^ k < 10 =
      (div-lt_iff_lt-mul pos).1
        (subst (λ n. value < n) (pow-suc 10 k ∙ mul_comm (10 ^ k) 10) small) in
    let low : value % 10 ^ k < 10 ^ k = mod-lt value pos in
    (
      split,
      digit,
      low,
      subst (λ v. subtract_power 10 v (10 ^ k) 0 ≡ (0 + value / 10 ^ k, value % 10 ^ k)) split
          (subtract_power-eq 10 (value / 10 ^ k) (value % 10 ^ k) (10 ^ k) 0 low digit),
    )

digit_value-zero : (d : ℕ) → d < 10 → digit_value (b'0' + d) ≡ d
unfolding digit_value
digit_value-zero d h = ground arith

shifted :
    (acc q p r value t : ℕ)
    → t ≡ p * 10
    → q * p + r ≡ value
    → (acc * 10 + (0 + q)) * p + r ≡ acc * t + value
shifted acc q p r value t e split =
    let parts : (acc * 10 + (0 + q)) * p ≡ acc * 10 * p + (0 + q) * p =
      add-mul (acc * 10) (0 + q) p in
    let moved : acc * 10 * p ≡ acc * t =
      mul_assoc acc 10 p ∙ ap (λ n. acc * n) (mul_comm 10 p ∙ sym e) in
    let same : (0 + q) * p ≡ q * p = ap (λ n. n * p) (omega arith) in
    omega (arith, parts, moved, same, split)

-- Behind the first digit that is not a zero.
read_digits-powers_loop :
    (k room acc value : ℕ)
    → value < 10 ^ k
    → k ≤ room
    → read_digits 10 acc (powers_loop value (powers_of k) room false) ≡ acc * 10 ^ k + value
unfolding powers_loop read_digits
read_digits-powers_loop zero room acc value small fits = omega arith
read_digits-powers_loop (suc k) zero acc value small fits = absurd (omega arith)
read_digits-powers_loop (suc k) (suc room) acc value small fits =
    let (split, digit, low, e) = digit-split value k small in
    rw (e, digit_value-zero (0 + value / 10 ^ k) (omega arith))
      (read_digits-powers_loop k room (acc * 10 + (0 + value / 10 ^ k)) (value % 10 ^ k) low
          (omega arith)
        ∙ shifted acc (value / 10 ^ k) (10 ^ k) (value % 10 ^ k) value (10 ^ suc k) (pow-suc 10 k)
            split)

-- From the first digit on.
read_digits-powers_loop_leading :
    (k room value : ℕ)
    → value < 10 ^ k
    → k ≤ room
    → read_digits 10 0 (powers_loop value (powers_of k) room true) ≡ value
unfolding powers_loop read_digits
read_digits-powers_loop_leading zero room value small fits = omega arith
read_digits-powers_loop_leading (suc k) zero value small fits = absurd (omega arith)
read_digits-powers_loop_leading (suc k) (suc room) value small fits =
    let (split, digit, low, e) = digit-split value k small in
    elim (Bool-cases (0 + value / 10 ^ k == 0)) [
      | inl skip ↦
          let no_digit : value / 10 ^ k ≡ 0 = ground arith in
          let whole : value % 10 ^ k ≡ value =
            sym (ap (λ q. q * 10 ^ k + value % 10 ^ k) no_digit ∙ omega arith) ∙ split in
          rw (e, skip)
            (read_digits-powers_loop_leading k (suc room) (value % 10 ^ k) low (omega arith)
              ∙ whole)
      | inr written ↦
          rw (e, written)
            (ap
                (λ d.
                  read_digits 10 (0 * 10 + d)
                    (powers_loop (value % 10 ^ k) (powers_of k) room false))
                (digit_value-zero (0 + value / 10 ^ k) (omega arith))
              ∙ read_digits-powers_loop k room (0 * 10 + (0 + value / 10 ^ k)) (value % 10 ^ k) low
                  (omega arith)
              ∙ shifted 0 (value / 10 ^ k) (10 ^ k) (value % 10 ^ k) value (10 ^ suc k)
                  (pow-suc 10 k) split
              ∙ omega arith)
    ]

is_digit-ten : (d : ℕ) → d < 10 → is_digit 10 (b'0' + d) ≡ true
unfolding is_digit
is_digit-ten d small = ground arith

-- Every character is a digit, whether or not leading zeros are skipped.
are_digits-powers_loop :
    (k room value : ℕ) (leading : Bool)
    → value < 10 ^ k
    → are_digits 10 (powers_loop value (powers_of k) room leading) ≡ true
unfolding powers_loop are_digits
are_digits-powers_loop zero room value leading small = refl
are_digits-powers_loop (suc k) zero value leading small = refl
are_digits-powers_loop (suc k) (suc room) value leading small =
    let (split, digit, low, e) = digit-split value k small in
    elim (Bool-cases (leading && 0 + value / 10 ^ k == 0)) [
      | inl skip ↦ rw (e, skip) (are_digits-powers_loop k (suc room) (value % 10 ^ k) leading low)
      | inr written ↦
          rw (e, written, is_digit-ten (0 + value / 10 ^ k) (omega arith))
            (are_digits-powers_loop k room (value % 10 ^ k) false low)
    ]

-- With leading zeros skipped, the first character is not 0.
starts-powers_loop :
    (k room value : ℕ)
    → value < 10 ^ k
    → value ≢ 0
    → k ≤ room
    → starts (powers_loop value (powers_of k) room true) ≡ true
unfolding powers_loop starts
starts-powers_loop zero room value small some_value fits = absurd (omega arith)
starts-powers_loop (suc k) zero value small some_value fits = absurd (omega arith)
starts-powers_loop (suc k) (suc room) value small some_value fits =
    let (split, digit, low, e) = digit-split value k small in
    elim (Bool-cases (0 + value / 10 ^ k == 0)) [
      | inl skip ↦
          let no_digit : value / 10 ^ k ≡ 0 = ground arith in
          let whole : value % 10 ^ k ≡ value =
            sym (ap (λ q. q * 10 ^ k + value % 10 ^ k) no_digit ∙ omega arith) ∙ split in
          rw (e, skip)
            (starts-powers_loop k (suc room) (value % 10 ^ k) low (λ z. some_value (sym whole ∙ z))
              (omega arith))
      | inr written ↦
          let other : (b'0' + (0 + value / 10 ^ k) == b'0') ≡ false = ground arith in
          rw (e, written, other) refl
    ]

-- In base 10 and in base 16, into 64 bytes, the text that `vga_ulltoa` makes of a number below 2 ^
-- 64, in base 10 by subtracting powers of ten and with the leading zeros skipped, reads back as the
-- number. The reading is strict: it refuses an empty text, a character that is no digit of the base
-- (0 to 9, and a to f in base 16), and a leading zero but for the text of 0.
pub parse-ulltoa :
    (value base : ℕ)
    → (base ≡ 10) ⊎ (base ≡ 16)
    → value < 2 ^ 64
    → parse base (ulltoa value base 64) ≡ some value
unfolding ulltoa
parse-ulltoa value base (inl ten) small =
    subst (λ b. parse b (ulltoa value b 64) ≡ some value) (sym ten)
      (elim (Bool-cases (value == 0)) [
        | inl none_left ↦
            rw none_left (parse-zero 10 ∙ ap (λ n. some n) (sym ((==_iff value 0).0 none_left)))
        | inr some_value ↦ rw some_value (
            parse-some 10 value (powers_loop value (powers_of 20) 63 true)
              (are_digits-powers_loop 20 63 value true (omega arith))
              (starts-powers_loop 20 63 value (omega arith) (ground arith) (omega arith))
              (read_digits-powers_loop_leading 20 63 value (omega arith) (omega arith)))
      ])
parse-ulltoa value base (inr sixteen) small =
    subst (λ b. parse b (ulltoa value b 64) ≡ some value) (sym sixteen)
      (elim (Bool-cases (value == 0)) [
        | inl none_left ↦
            rw none_left (parse-zero 16 ∙ ap (λ n. some n) (sym ((==_iff value 0).0 none_left)))
        | inr some_value ↦ rw some_value (
            parse-some 16 value (reverse (digits_loop 16 value 63))
              (are_digits-digits_loop 16 value 63 (inr refl))
              (starts-digits_loop 16 value 63 (inr refl) (ground arith) (omega arith))
              (read_digits-reverse 16 (digits_loop 16 value 63)
                ∙ low_value-digits_loop 16 value 63 (omega arith) (omega arith) (omega arith)))
      ])

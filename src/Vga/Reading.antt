-- ===== src/Vga/Reading.antt =====
-- Reading a number's text back, strictly: what is not the text of a number is refused.
use mathlib.Core.List.{reverse, reverse-append}
use os_learning.Base.{
  ℕ, zero, suc, ◌+◌, ◌-◌, ◌*◌, ◌/◌, ◌%◌, ◌^◌, ◌<◌, ◌≡◌, refl, sym, subst, ap, ◌∙◌, ◌≢◌, Bool, true,
  false, not, ◌&&◌, ◌||◌, Option, none, some, List, [], ◌∷◌, ◌++◌, ltb, leb, ◌==◌, if◌then◌else◌,
  arith, ◌⊎◌, inl, inr, Bool-cases,
}
use native.Mathlib.Nat.{pow-suc, pow-zero, div-lt_iff_lt-mul}
use os_learning.Vga.Digits.{digit_char, digits_loop}

-- The value of a digit's character, and of a text read from the left.
unfoldable pub digit_value : ℕ → ℕ
digit_value c = if ltb c b'a' then c - b'0' else c - b'a' + 10

unfoldable pub read_digits : ℕ → ℕ → List ℕ → ℕ
read_digits base acc [] = acc
read_digits base acc (c ∷ cs) = read_digits base (acc * base + digit_value c) cs

pub digit_value-digit_char : (d : ℕ) → digit_value (digit_char d) ≡ d
unfolding digit_value digit_char
digit_value-digit_char d = ground arith

read_digits-append :
    (base acc : ℕ) (xs ys : List ℕ)
    → read_digits base acc (xs ++ ys) ≡ read_digits base (read_digits base acc xs) ys
unfolding read_digits
read_digits-append base acc [] ys = refl
read_digits-append base acc (x ∷ xs) ys = read_digits-append base (acc * base + digit_value x) xs ys

-- A text written backwards, the lowest digit first.
unfoldable pub low_value : ℕ → List ℕ → ℕ
low_value base [] = 0
low_value base (c ∷ cs) = low_value base cs * base + digit_value c

pub read_digits-reverse :
    (base : ℕ) (cs : List ℕ) → read_digits base 0 (reverse cs) ≡ low_value base cs
unfolding low_value read_digits
read_digits-reverse base [] = refl
read_digits-reverse base (c ∷ cs) =
    ap (read_digits base 0) (reverse-append (c ∷ []) cs)
    ∙ read_digits-append base 0 (reverse cs) (c ∷ [])
    ∙ ap (λ n. n * base + digit_value c) (read_digits-reverse base cs)

-- A digit of the base: 0 to 9, and in base 16 also a to f.
unfoldable pub is_digit : ℕ → ℕ → Bool
is_digit base c = (leb b'0' c && leb c b'9') || (base == 16 && (leb b'a' c && leb c b'f'))

unfoldable pub are_digits : ℕ → List ℕ → Bool
are_digits base [] = true
are_digits base (c ∷ cs) = is_digit base c && are_digits base cs

-- There is a first character, and it is not 0.
unfoldable pub starts : List ℕ → Bool
starts [] = false
starts (c ∷ cs) = not (c == b'0')

unfoldable pub is_zero_text : List ℕ → Bool
is_zero_text [] = false
is_zero_text (c ∷ []) = c == b'0'
is_zero_text (c ∷ d ∷ cs) = false

-- The number that a text in the base stands for: `none` for an empty text, for a character that is
-- no digit of the base, and for a leading zero, but for the text "0".
unfoldable pub parse : ℕ → List ℕ → Option ℕ
unfolding is_zero_text
parse base text =
    if are_digits base text && (starts text || is_zero_text text)
    then some (read_digits base 0 text)
    else none

pub parse-some :
    (base value : ℕ) (text : List ℕ)
    → are_digits base text ≡ true
    → starts text ≡ true
    → read_digits base 0 text ≡ value
    → parse base text ≡ some value
unfolding parse
parse-some base value text digits first e = rw (parse, digits, first) (ap (λ n. some n) e)

is_digit-digit_char :
    (base d : ℕ) → (base ≡ 10) ⊎ (base ≡ 16) → d < base → is_digit base (digit_char d) ≡ true
unfolding is_digit digit_char
is_digit-digit_char base d (inl ten) small = ground arith
is_digit-digit_char base d (inr sixteen) small = ground arith

are_digits-append :
    (base : ℕ) (xs ys : List ℕ)
    → are_digits base xs ≡ true
    → are_digits base ys ≡ true
    → are_digits base (xs ++ ys) ≡ true
unfolding are_digits
are_digits-append base [] ys h h' = h'
are_digits-append base (x ∷ xs) ys h h' =
    let first : is_digit base x ≡ true = ground arith in
    let rest : are_digits base xs ≡ true = ground arith in
    rw (first, are_digits-append base xs ys rest h') refl

are_digits-reverse :
    (base : ℕ) (cs : List ℕ) → are_digits base cs ≡ true → are_digits base (reverse cs) ≡ true
unfolding are_digits
are_digits-reverse base [] h = refl
are_digits-reverse base (c ∷ cs) h =
    let first : is_digit base c ≡ true = ground arith in
    let rest : are_digits base cs ≡ true = ground arith in
    let one : are_digits base (c ∷ []) ≡ true = rw (are_digits, first) refl in
    ap (are_digits base) (reverse-append (c ∷ []) cs)
    ∙ are_digits-append base (reverse cs) (c ∷ []) (are_digits-reverse base cs rest) one

digits-All :
    (base value room : ℕ)
    → (base ≡ 10) ⊎ (base ≡ 16)
    → are_digits base (digits_loop base value room) ≡ true
unfolding are_digits digits_loop
digits-All base value zero which = refl
digits-All base value (suc room) which =
    let small : value % base < base = elim which [
      | inl ten ↦ subst (λ b. value % b < b) (sym ten) (omega arith)
      | inr sixteen ↦ subst (λ b. value % b < b) (sym sixteen) (omega arith)
    ] in
    let first = is_digit-digit_char base (value % base) which small in
    elim (Bool-cases (value / base == 0)) [
      | inl last ↦ rw (last, first) refl
      | inr more ↦ rw (more, first) (digits-All base (value / base) room which)
    ]

pub are_digits-digits_loop :
    (base value room : ℕ)
    → (base ≡ 10) ⊎ (base ≡ 16)
    → are_digits base (reverse (digits_loop base value room)) ≡ true
are_digits-digits_loop base value room which =
    are_digits-reverse base (digits_loop base value room) (digits-All base value room which)

starts-append : (xs ys : List ℕ) → starts xs ≡ true → starts (xs ++ ys) ≡ true
unfolding starts
starts-append [] ys h = absurd (ground arith)
starts-append (x ∷ xs) ys h = h

starts-digit_char : (d : ℕ) → d ≢ 0 → starts (digit_char d ∷ []) ≡ true
unfolding starts digit_char
starts-digit_char d some_digit = ground arith

-- The highest digit is not 0.
pub starts-digits_loop :
    (base value room : ℕ)
    → (base ≡ 10) ⊎ (base ≡ 16)
    → value ≢ 0
    → value < base ^ room
    → starts (reverse (digits_loop base value room)) ≡ true
unfolding digits_loop
starts-digits_loop base value zero which some_value small = absurd (omega (arith, pow-zero base))
starts-digits_loop base value (suc room) which some_value small =
    let positive : 0 < base = elim which [
      | inl ten ↦ omega (arith, ten)
      | inr sixteen ↦ omega (arith, sixteen)
    ] in
    let less : value / base < base ^ room =
      (div-lt_iff_lt-mul positive).1 (subst (λ n. value < n) (pow-suc base room) small) in
    elim (Bool-cases (value / base == 0)) [
      | inl last ↦
          let same : value % base ≢ 0 = elim which [
            | inl ten ↦
                subst (λ b. (value / b == 0) ≡ true → value % b ≢ 0) (sym ten) (λ e. ground arith)
                  last
            | inr sixteen ↦
                subst (λ b. (value / b == 0) ≡ true → value % b ≢ 0) (sym sixteen)
                  (λ e. ground arith) last
          ] in
          rw last (starts-digit_char (value % base) same)
      | inr more ↦
          let some_left : value / base ≢ 0 = ground arith in
          let rest = digits_loop base (value / base) room in
          rw more (
            ap starts (reverse-append (digit_char (value % base) ∷ []) rest)
            ∙ starts-append (reverse rest) (digit_char (value % base) ∷ [])
                (starts-digits_loop base (value / base) room which some_left less))
    ]

-- ===== src/Earlier/Texts.antt =====
-- The text that the earlier `vga_itoa` makes is the one that the last step's makes.
use os_learning.Base.{
  ℕ, zero, suc, ◌+◌, ◌-◌, ◌%◌, ◌^◌, ◌≤◌, ◌<◌, ◌≡◌, refl, sym, ap, ◌∙◌, subst, arith, Bool, true,
  false, ◌&&◌, ◌⊎◌, inl, inr, List, [], ◌∷◌, ◌++◌, ltb, leb, ◌==◌, if◌then◌else◌, update, length,
  Bool-cases, update_self, update_ne, ltb→lt, lt→ltb, ==_iff,
}
use mathlib.Core.List.{reverse, reverse-append}
use os_learning.OrderedArray.Contents.{slots, slots-eq, length-slots}
use os_learning.Vga.Digits.{digit_char, digits_loop, utoa, itoa}
use os_learning.Earlier.{old_digits, swap_loop, old_itoa}
use os_learning.Earlier.Digits.{
  Wrote, old_digits-digits, slots-snoc, reverse-slots, swap_loop-reverse,
}

-- The digits of zero are one zero.
zero-ten : (room : ℕ) → (if ltb 0 room then b'0' ∷ [] else []) ≡ reverse (digits_loop 10 0 room)
unfolding digits_loop digit_char
zero-ten zero = refl
zero-ten (suc room) =
    let some_room : ltb 0 (suc room) ≡ true = lt→ltb 0 (suc room) (omega arith) in rw some_room refl

zero-sixteen : (room : ℕ) → (if ltb 0 room then b'0' ∷ [] else []) ≡ reverse (digits_loop 16 0 room)
unfolding digits_loop digit_char
zero-sixteen zero = refl
zero-sixteen (suc room) =
    let some_room : ltb 0 (suc room) ≡ true = lt→ltb 0 (suc room) (omega arith) in rw some_room refl

-- The two bases.
by_base : (P : ℕ → Type 0) (base : ℕ) → base ≡ 10 ⊎ base ≡ 16 → P 10 → P 16 → P base
by_base P base (inl ten) p q = subst P (sym ten) p
by_base P base (inr sixteen) p q = subst P (sym sixteen) q

utoa-digits :
    (v base buf_size : ℕ)
    → (buf_size == 0) ≡ false
    → base ≡ 10 ⊎ base ≡ 16
    → utoa v base buf_size ≡ reverse (digits_loop base v (buf_size - 1))
unfolding utoa
utoa-digits v base buf_size some_size which = elim (Bool-cases (v == 0)) [
  | inl zero_value ↦
      subst (λ u. utoa u base buf_size ≡ reverse (digits_loop base u (buf_size - 1)))
        (sym ((==_iff v 0).0 zero_value))
        (by_base (λ b. utoa 0 b buf_size ≡ reverse (digits_loop b 0 (buf_size - 1))) base which
          (rw some_size (zero-ten (buf_size - 1))) (rw some_size (zero-sixteen (buf_size - 1))))
  | inr other ↦
      by_base (λ b. utoa v b buf_size ≡ reverse (digits_loop b v (buf_size - 1))) base which
        (rw (some_size, other) refl) (rw (some_size, other) refl)
]

-- A list and the part of the buffer that holds it.
length-reverse : (f : ℕ → ℕ) (l : List ℕ) → slots f 0 (length l) ≡ l → length (reverse l) ≡ length l
length-reverse f l e =
    ap (λ m. length (reverse m)) (sym e)
    ∙ ap (length {0}) (reverse-slots f 0 (length l))
    ∙ length-slots (λ j. f (0 + length l - 1 - j)) 0 (length l)

pos_of : (n : ℕ) → (n == 0) ≡ false → 0 < n
pos_of n h = ground arith

ge_of_ltb : (a b : ℕ) → ltb a b ≡ false → b ≤ a
ge_of_ltb a b h = ground arith

ltb_of_ge : (a b : ℕ) → b ≤ a → ltb a b ≡ false
ltb_of_ge a b h = ground arith

module _ (v base buf_size : ℕ) (some_size : (buf_size == 0) ≡ false) (which : base ≡ 10 ⊎ base ≡ 16)
    (buf : ℕ → ℕ) where
  abbrev pub room : ℕ
  room = buf_size - 1

  abbrev pub written : (ℕ → ℕ) × ℕ
  written = old_digits base v buf 0 room

  wrote : Wrote buf 0 (digits_loop base v room) written
  wrote = old_digits-digits base v buf 0 room

  at : written.1 ≡ length (digits_loop base v room)
  at = omega (arith, wrote.1)

  digits : slots written.0 0 written.1 ≡ digits_loop base v room
  digits = ap (slots written.0 0) at ∙ wrote.0

  text : utoa v base buf_size ≡ reverse (digits_loop base v room)
  text = utoa-digits v base buf_size some_size which

  -- Where a sign goes behind the digits, it comes before the digits turned round.
  signed :
      slots
        (swap_loop
          (suc written.1)
          0
          (suc written.1 - 1)
          (update (update written.0 written.1 b'-') (suc written.1) 0))
        0
        (suc written.1)
      ≡ b'-' ∷ utoa v base buf_size
  signed =
      let f = update written.0 written.1 b'-' in
      swap_loop-reverse f (suc written.1)
      ∙ ap reverse (slots-snoc f 0 written.1)
      ∙ ap (λ c. reverse (slots f 0 written.1 ++ (c ∷ [])))
          (ap f (omega arith) ∙ update_self written.0 written.1 b'-')
      ∙ ap (λ l. reverse (l ++ (b'-' ∷ [])))
          (slots-eq f written.0 0 written.1
              (λ j lo hi. update_ne written.0 written.1 j b'-' (λ e. omega (arith, e)))
            ∙ digits)
      ∙ reverse-append (digits_loop base v room) (b'-' ∷ [])
      ∙ ap (λ l. b'-' ∷ l) (sym text)

  unsigned :
      slots (swap_loop written.1 0 (written.1 - 1) (update written.0 written.1 0)) 0 written.1
      ≡ utoa v base buf_size
  unsigned = swap_loop-reverse written.0 written.1 ∙ ap reverse digits ∙ sym text

  -- The sign finds room behind the digits exactly if it finds room before them.
  same_room : ltb written.1 room ≡ ltb (length (utoa v base buf_size) + 1) buf_size
  same_room =
      let number : length (utoa v base buf_size) ≡ written.1 =
        ap (length {0}) text
        ∙ length-reverse written.0 (digits_loop base v room) wrote.0
        ∙ sym at in
      let pos : 0 < buf_size = pos_of buf_size some_size in
      elim (Bool-cases (ltb written.1 room)) [
        | inl fits ↦
            let lt : written.1 < room = ltb→lt written.1 room fits in
            fits ∙ sym (lt→ltb (length (utoa v base buf_size) + 1) buf_size (omega (arith, number)))
        | inr full ↦
            let ge : room ≤ written.1 = ge_of_ltb written.1 room full in
            full
            ∙ sym (ltb_of_ge (length (utoa v base buf_size) + 1) buf_size (omega (arith, number)))
      ]

  -- What is written behind the digits and turned round, for a number that has a sign or not.
  abbrev pub turned : Bool → List ℕ
  turned sign =
      let buf' = if sign then update written.0 written.1 b'-' else written.0 in
      let p' = if sign then suc written.1 else written.1 in
      slots (swap_loop p' 0 (p' - 1) (update buf' p' 0)) 0 p'

  pub both :
      (is_negative : Bool)
      → turned (is_negative && ltb written.1 room) ≡ (
          if is_negative && ltb (length (utoa v base buf_size) + 1) buf_size
          then b'-' ∷ utoa v base buf_size
          else utoa v base buf_size)
  both false = unsigned
  both true = elim (Bool-cases (ltb written.1 room)) [
    | inl fits ↦
        ap turned fits
        ∙ signed
        ∙ ap (λ t. if t then b'-' ∷ utoa v base buf_size else utoa v base buf_size)
            (sym fits ∙ same_room)
    | inr full ↦
        ap turned full
        ∙ unsigned
        ∙ ap (λ t. if t then b'-' ∷ utoa v base buf_size else utoa v base buf_size)
            (sym full ∙ same_room)
  ]

-- In base 10 and in base 16, for every buffer size and whatever the buffer holds before: the digits
-- that the earlier step's `vga_itoa` writes lowest first, with the sign behind them, and then turns
-- round in the buffer are the text that the last step's makes.
pub old_itoa-itoa :
    (value base buf_size : ℕ) (buf : ℕ → ℕ)
    → base ≡ 10 ⊎ base ≡ 16
    → old_itoa value buf base buf_size ≡ itoa value base buf_size
unfolding old_itoa itoa
old_itoa-itoa value base buf_size buf which = elim (Bool-cases (buf_size == 0)) [
  | inl empty ↦ rw empty refl
  | inr some_size ↦
      let is_negative = base == 10 && leb (2 ^ 31) value in
      rw some_size (
        both (if is_negative then (2 ^ 32 - value) % 2 ^ 32 else value) base buf_size some_size
          which buf is_negative)
]

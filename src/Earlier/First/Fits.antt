-- ===== src/Earlier/First/Fits.antt =====
-- Every `int` in base 10 or 16 fits a buffer of 64 bytes.
use native.Mathlib.Nat.{pow-suc, pow-zero, div-lt_iff_lt-mul}
use os_learning.Base.{
  ℕ, zero, suc, ◌+◌, ◌-◌, ◌/◌, ◌%◌, ◌^◌, ◌≤◌, ◌<◌, ◌≡◌, refl, sym, ap, ◌∙◌, subst, ◌≢◌, ◌⊎◌, inl,
  inr, Bool, true, false, ◌&&◌, Option, none, some, ltb, leb, ◌==◌, if◌then◌else◌, update,
  update_self, update_ne, Bool-cases, arith, lt→ltb,
}
use os_learning.OrderedArray.Contents.{slots}
use os_learning.Vga.Digits.{digit_char, itoa}
use os_learning.Earlier.{swap_loop, old_digits}
use os_learning.Earlier.Digits.{swap_loop-outside}
use os_learning.Earlier.Texts.{turned, both}
use os_learning.Earlier.First.{first_digits, first_itoa}

and_true : (b : Bool) → (b && true) ≡ b
and_true true = refl
and_true false = refl

pos_cases : (k : ℕ) → (k ≡ 0) ⊎ ((k' : ℕ) × (k ≡ suc k'))
pos_cases zero = inl refl
pos_cases (suc k) = inr (k, refl)

ne_of : (n : ℕ) → (n == 0) ≡ false → n ≢ 0
ne_of n h = ground arith

-- Where the number has at most `k` digits, both loops write the same, and no more than those.
record Alike (k : ℕ) (buf : ℕ → ℕ) (p : ℕ) (res : Option ((ℕ → ℕ) × ℕ)) (old : (ℕ → ℕ) × ℕ)
    : Type 0 where
  same : res ≡ some old
  short : old.1 ≤ p + k
  kept : (j : ℕ) → p + k ≤ j → old.0 j ≡ buf j

digits-Alike :
    (k fuel room base v : ℕ) (buf : ℕ → ℕ) (p : ℕ)
    → 2 ≤ base
    → v < base ^ suc k
    → k < fuel
    → k < room
    → Alike (suc k) buf p (first_digits fuel base v buf p) (old_digits base v buf p room)
unfolding first_digits old_digits
digits-Alike k zero room base v buf p two small f r = absurd (omega arith)
digits-Alike k (suc fuel) zero base v buf p two small f r = absurd (omega arith)
digits-Alike k (suc fuel) (suc room) base v buf p two small f r =
    let less : v / base < base ^ k =
      (div-lt_iff_lt-mul (omega arith)).1 (subst (λ n. v < n) (pow-suc base k) small) in
    elim (Bool-cases (v / base == 0)) [
      | inl last ↦ rw last (record {
        same = refl;
        short = omega arith;
        kept = λ j ge. update_ne buf p j (digit_char (v % base)) (λ e. omega (arith, e));
      })
      | inr more ↦ elim (pos_cases k) [
        | inl none_left ↦
            let one : base ^ k ≡ 1 = ap (λ n. base ^ n) none_left ∙ pow-zero base in
            absurd (ne_of (v / base) more (omega (arith, one, less)))
        | inr (k', e) ↦
            let ih =
              digits-Alike k' fuel room base (v / base) (update buf p (digit_char (v % base)))
                (suc p) two (subst (λ n. v / base < base ^ n) e less) (omega (arith, e))
                (omega (arith, e)) in
            rw more (record {
              same = ih.same;
              short = omega (arith, ih.short, e);
              kept = λ j ge.
                  ih.kept j (omega (arith, e))
                  ∙ update_ne buf p j (digit_char (v % base)) (λ e'. omega (arith, e'));
            })
      ]
    ]

-- The turning leaves the NUL behind the characters where it is.
nul_stays : (n : ℕ) (f : ℕ → ℕ) → swap_loop n 0 (n - 1) (update f n 0) n ≡ 0
unfolding swap_loop
nul_stays zero f = update_self f 0 0
nul_stays (suc n) f =
    swap_loop-outside (suc n) 0 (suc n - 1) (update f (suc n) 0) (suc n) (inr (omega arith))
    ∙ update_self f (suc n) 0

-- What is left of the buffer's 64 bytes, whatever they held.
pub record Fits (value base : ℕ) (buf : ℕ → ℕ) (res : Option ((ℕ → ℕ) × ℕ)) : Type 0 where
  pub buffer : ℕ → ℕ
  pub size : ℕ
  pub result : res ≡ some (buffer, size)
  pub text : slots buffer 0 size ≡ itoa value base 64
  pub nul : buffer size ≡ 0
  pub short : size ≤ 12
  pub kept : (j : ℕ) → 13 ≤ j → buffer j ≡ buf j

module _ (value base : ℕ) (buf : ℕ → ℕ) (which : base ≡ 10 ⊎ base ≡ 16)
    (word : value < 2 ^ 32) where
  abbrev is_negative : Bool
  is_negative = base == 10 && leb (2 ^ 31) value

  abbrev v : ℕ
  v = if is_negative then (2 ^ 32 - value) % 2 ^ 32 else value

  v-word : v < 2 ^ 32
  v-word = elim (Bool-cases is_negative) [
    | inl negative ↦ rw negative (omega arith)
    | inr positive ↦ rw positive word
  ]

  v-small : v < base ^ 11
  v-small = elim which [
    | inl ten ↦ subst (λ b. v < b ^ 11) (sym ten) (omega (arith, v-word))
    | inr sixteen ↦ subst (λ b. v < b ^ 11) (sym sixteen) (omega (arith, v-word))
  ]

  two : 2 ≤ base
  two = elim which [ inl ten ↦ omega (arith, ten) | inr sixteen ↦ omega (arith, sixteen) ]

  abbrev old : (ℕ → ℕ) × ℕ
  old = old_digits base v buf 0 63

  module _ (fuel : ℕ) (enough : 11 ≤ fuel) where
    alike : Alike 11 buf 0 (first_digits fuel base v buf 0) old
    alike = digits-Alike 10 fuel 63 base v buf 0 two v-small (omega arith) (omega arith)

    -- The buffer after the sign `neg`, and the place of the NUL.
    abbrev with_sign : Bool → ℕ → ℕ
    with_sign neg = if neg then update old.0 old.1 b'-' else old.0

    abbrev place : Bool → ℕ
    place neg = if neg then suc old.1 else old.1

    abbrev after_swap : Bool → ℕ → ℕ
    after_swap neg = swap_loop (place neg) 0 (place neg - 1) (update (with_sign neg) (place neg) 0)

    place-short : (neg : Bool) → place neg ≤ 12
    place-short true = omega (arith, alike.short)
    place-short false = omega (arith, alike.short)

    with_sign-kept : (neg : Bool) (j : ℕ) → 13 ≤ j → with_sign neg j ≡ buf j
    with_sign-kept true j ge =
        update_ne old.0 old.1 j b'-' (λ e. omega (arith, e, alike.short))
        ∙ alike.kept j (omega arith)
    with_sign-kept false j ge = alike.kept j (omega arith)

    signed_room : (neg : Bool) → (neg && ltb old.1 63) ≡ neg
    signed_room neg =
        ap (λ t. neg && t) (lt→ltb old.1 63 (omega (arith, alike.short))) ∙ and_true neg

    -- For a 32-bit value, in base 10 or 16: the `vga_itoa` of 06.refactoring, which does not check
    -- how large its buffer is, ends within 11 rounds, writes at most 12 characters, the NUL right
    -- behind them, and no byte from the fourteenth on, and makes the text that the last step's
    -- makes in 64 bytes.
    pub first_itoa-Fits : Fits value base buf (first_itoa fuel value buf base)
    unfolding first_itoa itoa
    first_itoa-Fits = record {
      buffer = after_swap is_negative;
      size = place is_negative;
      result =
          ap {A = Option ((ℕ → ℕ) × ℕ)} {B = Option ((ℕ → ℕ) × ℕ)}
            (λ r. elim r [
              | none ↦ none
              | some (digits, p) ↦
                  let buf' = if is_negative then update digits p b'-' else digits in
                  let p' = if is_negative then suc p else p in
                  some (swap_loop p' 0 (p' - 1) (update buf' p' 0), p')
            ])
            alike.same;
      text =
          sym (ap (turned v base 64 refl which buf) (signed_room is_negative))
          ∙ both v base 64 refl which buf is_negative;
      nul = nul_stays (place is_negative) (with_sign is_negative);
      short = place-short is_negative;
      kept = λ j ge.
          swap_loop-outside (place is_negative) 0 (place is_negative - 1)
            (update (with_sign is_negative) (place is_negative) 0) j
            (inr (omega (arith, place-short is_negative)))
          ∙ update_ne (with_sign is_negative) (place is_negative) j 0
              (λ e. omega (arith, e, place-short is_negative))
          ∙ with_sign-kept is_negative j ge;
    }

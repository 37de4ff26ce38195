-- ===== src/Arith/Floor.antt =====
-- `div` and `mod` of lib/math.c are division that rounds down, with the remainder that goes with it.
use os_learning.Base.{
  ℕ, ◌+◌, ◌-◌, ◌*◌, ◌/◌, ◌%◌, ◌^◌, ◌≤◌, ◌<◌, ◌≡◌, ◌⊎◌, inl, inr, ap, ◌∙◌, arith, leb, ◌==◌, ==_iff,
  true, false, Bool-cases,
}
use native.Mathlib.Nat.{
  mod-lt, mod-eq_of_lt, add-mod_right, mod_self, div-add-mod, mul-add-div, add-div_right,
  div-eq_of_lt,
}
use os_learning.Memory.{add32, sub32}
use os_learning.Arith.{div, mod_floor}

-- `n` times the quotient and the remainder make the number, and the remainder lies in `[0, n)`: for a
-- pattern of a negative number the quotient is the pattern of `-p`.
abbrev pub Floored : ℕ → ℕ → ℕ → ℕ → Type 0
Floored x n q r =
    (r < n)
    × (((x < 2 ^ 31) × (n * q + r ≡ x))
        ⊎ ((2 ^ 31 ≤ x) × ((p : ℕ) × (q ≡ sub32 0 p) × (n * p ≡ 2 ^ 32 - x + r))))

module _ (x n : ℕ) (pos : 0 < n) (small : n ≤ 2 ^ 30) where
  positive : leb (2 ^ 31) n ≡ false
  positive = ground arith

  Floored-upward : x < 2 ^ 31 → Floored x n (div x n) (mod_floor x n)
  unfolding div mod_floor
  Floored-upward h =
      let lt = mod-lt x pos in
      let up : leb (2 ^ 31) x ≡ false = ground arith in
      let sum : add32 (x % n) n ≡ x % n + n = omega (arith, lt) in
      let up' : leb (2 ^ 31) (x % n + n) ≡ false = ground (arith, lt) in
      let r : (x % n + n) % n ≡ x % n = add-mod_right (x % n) n ∙ mod-eq_of_lt lt in
      rw (up, positive, sum, up', r) (lt, inl (h, div-add-mod x n))

  -- The rounding of the negative numbers: up, in magnitude.
  ceiling :
      (k : ℕ)
      → ((k % n ≡ 0) × (n * ((k + (n - 1)) / n) ≡ k))
        ⊎ ((0 < k % n) × (n * ((k + (n - 1)) / n) ≡ k + (n - k % n)))
  ceiling k =
      let whole = div-add-mod k n in
      let lt = mod-lt k pos in
      elim (Bool-cases (k % n == 0)) [
        | inl even ↦
            let none : k % n ≡ 0 = (==_iff (k % n) 0).0 even in
            let sum : k + (n - 1) ≡ n * (k / n) + (n - 1) = omega arith in
            let q : (k + (n - 1)) / n ≡ k / n =
              ap (λ y. y / n) sum
              ∙ mul-add-div pos (k / n) (n - 1)
              ∙ ap (λ y. k / n + y) (div-eq_of_lt {n = n - 1} {m = n} (omega arith))
              ∙ omega arith in
            inl (none, ap (λ y. n * y) q ∙ omega arith)
        | inr odd ↦
            let some_left : 0 < k % n = ground arith in
            let sum : k + (n - 1) ≡ (n * (k / n) + (k % n - 1)) + n = omega arith in
            let q : (k + (n - 1)) / n ≡ k / n + 1 =
              ap (λ y. y / n) sum
              ∙ add-div_right (n * (k / n) + (k % n - 1)) pos
              ∙ ap (λ y. y + 1)
                  (mul-add-div pos (k / n) (k % n - 1)
                    ∙ ap (λ y. k / n + y) (div-eq_of_lt {n = k % n - 1} {m = n} (omega arith))
                    ∙ omega arith) in
            inr (some_left, ap (λ y. n * y) q ∙ grind (arith, whole))
      ]

  module _ (h : 2 ^ 31 ≤ x) (room : 2 ^ 31 + n ≤ x + 1) (word : x < 2 ^ 32) where
    abbrev k : ℕ
    k = 2 ^ 32 - x

    negative : leb (2 ^ 31) x ≡ true
    negative = ground arith

    div-downward : div x n ≡ sub32 0 ((k + (n - 1)) / n)
    unfolding div
    div-downward =
        let shifted : add32 (sub32 x n) 1 ≡ x - n + 1 = omega arith in
        let below : leb (2 ^ 31) (x - n + 1) ≡ true = ground arith in
        let size : 2 ^ 32 - (x - n + 1) ≡ 2 ^ 32 - x + (n - 1) = omega arith in
        rw (negative, shifted, below, positive, size)

    mod_floor-downward :
        ((k % n ≡ 0) → mod_floor x n ≡ 0) × ((0 < k % n) → mod_floor x n ≡ n - k % n)
    unfolding mod_floor
    mod_floor-downward =
        let lt = mod-lt k pos in
        (
          λ none.
              let sum : add32 (sub32 0 0) n ≡ n = omega arith in
              rw (negative, positive, none, sum, positive) (mod_self n),
          λ some_left.
              let sum : add32 (sub32 0 (k % n)) n ≡ n - k % n = omega (arith, lt) in
              let up : leb (2 ^ 31) (n - k % n) ≡ false = ground arith in
              rw (negative, positive, sum, up) (mod-eq_of_lt {n = n - k % n} {m = n} (omega arith)),
        )

    Floored-downward : Floored x n (div x n) (mod_floor x n)
    Floored-downward = elim (ceiling k) [
      | inl (none, e) ↦
          let r = mod_floor-downward.0 none in
          (omega (arith, r), inr (h, ((k + (n - 1)) / n, div-downward, e ∙ omega (arith, r))))
      | inr (some_left, e) ↦
          let r = mod_floor-downward.1 some_left in
          (omega (arith, r), inr (h, ((k + (n - 1)) / n, div-downward, e ∙ omega (arith, r))))
    ]

  -- For a divisor from 1 to 2 ^ 30 and a dividend of which `x - N + 1` does not fall below the
  -- least 32-bit number where it is negative, `div` is the division that rounds down, and `mod` the
  -- remainder from 0 to N - 1 that goes with it.
  pub div-Floored :
      x < 2 ^ 32 → (x < 2 ^ 31) ⊎ (2 ^ 31 + n ≤ x + 1) → Floored x n (div x n) (mod_floor x n)
  div-Floored word range = elim (Bool-cases (leb (2 ^ 31) x)) [
    | inl negative_x ↦ Floored-downward (ground arith) (ground (arith, range)) word
    | inr other ↦ Floored-upward (ground arith)
  ]

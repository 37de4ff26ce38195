-- ===== src/Earlier/Digits.antt =====
-- What the loops of the earlier `vga_itoa` leave in the buffer.
use os_learning.Base.{
  ℕ, zero, suc, ◌+◌, ◌-◌, ◌/◌, ◌%◌, ◌≤◌, ◌<◌, ◌≡◌, refl, sym, ap, ◌∙◌, subst, arith, true, false,
  ◌⊎◌, inl, inr, List, [], ◌∷◌, ◌++◌, ltb, ◌==◌, update, length, Bool-cases, update_self, update_ne,
  ltb→lt, ==_iff, ◌≢◌,
}
use mathlib.Core.List.{reverse, reverse-cons}
use os_learning.OrderedArray.Contents.{slots, slots-eq}
use os_learning.Vga.Digits.{digit_char, digits_loop}
use os_learning.Earlier.{old_digits, swap_loop}

-- The part from `a` to `b` is turned round.
pub swap_loop-outside :
    (fuel a b : ℕ) (f : ℕ → ℕ) (j : ℕ) → (j < a) ⊎ (b < j) → swap_loop fuel a b f j ≡ f j
unfolding swap_loop
swap_loop-outside zero a b f j out = refl
swap_loop-outside (suc fuel) a b f j out = elim (Bool-cases (ltb a b)) [
  | inr stop ↦ rw stop refl
  | inl go ↦
      let lt : a < b = ltb→lt a b go in
      let apart : (a ≢ j) × (b ≢ j) × ((j < suc a) ⊎ (b - 1 < j)) = elim out [
        | inl below ↦
            (λ e. omega (arith, below, e), λ e. omega (arith, below, e), inl (omega (arith, below)))
        | inr above ↦
            (λ e. omega (arith, above, e), λ e. omega (arith, above, e), inr (omega (arith, above)))
      ] in
      rw go (
        swap_loop-outside fuel (suc a) (b - 1) (update (update f a (f b)) b (f a)) j apart.2
        ∙ update_ne (update f a (f b)) b j (f a) apart.1
        ∙ update_ne f a j (f b) apart.0)
]

swap_loop-turned :
    (fuel a b : ℕ) (f : ℕ → ℕ)
    → b ≤ a + fuel
    → (j : ℕ) → a ≤ j
    → j ≤ b
    → swap_loop fuel a b f j ≡ f (a + b - j)
unfolding swap_loop
swap_loop-turned zero a b f enough j lo hi = ap f (omega arith)
swap_loop-turned (suc fuel) a b f enough j lo hi = elim (Bool-cases (ltb a b)) [
  | inr stop ↦ let same : b ≤ a = ground arith in rw stop (ap f (omega arith))
  | inl go ↦
      let lt : a < b = ltb→lt a b go in
      let f' = update (update f a (f b)) b (f a) in
      rw go (elim (Bool-cases (a == j)) [
        | inl first ↦
            let e = (==_iff a j).0 first in
            swap_loop-outside fuel (suc a) (b - 1) f' j (inl (omega (arith, e)))
            ∙ update_ne (update f a (f b)) b j (f a) (λ e'. omega (arith, e, e'))
            ∙ ap (update f a (f b)) (sym e)
            ∙ update_self f a (f b)
            ∙ ap f (omega (arith, e))
        | inr later ↦ elim (Bool-cases (b == j)) [
          | inl last ↦
              let e = (==_iff b j).0 last in
              swap_loop-outside fuel (suc a) (b - 1) f' j (inr (omega (arith, e)))
              ∙ ap f' (sym e)
              ∙ update_self (update f a (f b)) b (f a)
              ∙ ap f (omega (arith, e))
          | inr before ↦
              let ne : (a ≢ j) × (b ≢ j) =
                (λ e. (let t = (==_iff a j).1 e in cc), λ e. (let t = (==_iff b j).1 e in cc)) in
              swap_loop-turned fuel (suc a) (b - 1) f' (omega arith) j (omega (arith, ne.0))
                (omega (arith, ne.1))
              ∙ update_ne (update f a (f b)) b (suc a + (b - 1) - j) (f a)
                  (λ e. omega (arith, e, ne.0))
              ∙ update_ne f a (suc a + (b - 1) - j) (f b) (λ e. omega (arith, e, ne.1))
              ∙ ap f (omega arith)
        ]
      ])
]

ap2 : {x y : ℕ} {xs ys : List ℕ} → x ≡ y → xs ≡ ys → (x ∷ xs) ≡ y ∷ ys
ap2 {x} {y} {xs} {ys} e e' = ap (λ z. z ∷ xs) e ∙ ap (λ zs. y ∷ zs) e'

subst2 : {A B : Type 0} (P : A → B → Type 0) {x y : A} {u v : B} → x ≡ y → u ≡ v → P x u → P y v
subst2 P {x} {y} {u} {v} e e' p = subst (λ w. P y w) e' (subst (λ z. P z u) e p)

pub slots-snoc : (f : ℕ → ℕ) (i n : ℕ) → slots f i (suc n) ≡ slots f i n ++ (f (i + n) ∷ [])
slots-snoc f i zero = ap (λ x. f x ∷ []) (omega arith)
slots-snoc f i (suc n) =
    ap (λ l. f i ∷ l)
      (slots-snoc f (suc i) n ∙ ap (λ x. slots f (suc i) n ++ (f x ∷ [])) (omega arith))

pub reverse-slots :
    (f : ℕ → ℕ) (i n : ℕ) → reverse (slots f i n) ≡ slots (λ j. f (i + n - 1 - j)) 0 n
reverse-slots f i zero = refl
reverse-slots f i (suc n) =
    reverse-cons (f i) (slots f (suc i) n)
    ∙ ap (λ l. l ++ (f i ∷ []))
        (reverse-slots f (suc i) n
          ∙ slots-eq (λ j. f (suc i + n - 1 - j)) (λ j. f (i + suc n - 1 - j)) 0 n
              (λ j lo hi. ap f (omega arith)))
    ∙ ap (λ x. slots (λ j. f (i + suc n - 1 - j)) 0 n ++ (x ∷ [])) (ap f (omega arith))
    ∙ sym (slots-snoc (λ j. f (i + suc n - 1 - j)) 0 n)

module _ (base v room p : ℕ) (buf : ℕ → ℕ) where
  abbrev stored : ℕ → ℕ
  stored = update buf p (digit_char (v % base))

  old_digits-last : (v / base == 0) ≡ true → old_digits base v buf p (suc room) ≡ (stored, suc p)
  unfolding old_digits
  old_digits-last e = rw e refl

  old_digits-more :
      (v / base == 0) ≡ false
      → old_digits base v buf p (suc room) ≡ old_digits base (v / base) stored (suc p) room
  unfolding old_digits
  old_digits-more e = rw e refl

  digits_loop-last :
      (v / base == 0) ≡ true → digits_loop base v (suc room) ≡ digit_char (v % base) ∷ []
  unfolding digits_loop
  digits_loop-last e = rw e refl

  digits_loop-more :
      (v / base == 0) ≡ false
      → digits_loop base v (suc room) ≡ digit_char (v % base) ∷ digits_loop base (v / base) room
  unfolding digits_loop
  digits_loop-more e = rw e refl

-- What the loop leaves in the buffer: the digits from `p` on.
abbrev pub Wrote : (ℕ → ℕ) → ℕ → List ℕ → (ℕ → ℕ) × ℕ → Type 0
Wrote buf p digits (buf', p') =
    (slots buf' p (length digits) ≡ digits)
    × (p' ≡ p + length digits)
    × ((j : ℕ) → j < p → buf' j ≡ buf j)

nothing :
    (base v : ℕ) (buf : ℕ → ℕ) (p : ℕ)
    → Wrote buf p (digits_loop base v zero) (old_digits base v buf p zero)
unfolding old_digits digits_loop
nothing base v buf p = (refl, omega arith, λ j lt. refl)

pub old_digits-digits :
    (base v : ℕ) (buf : ℕ → ℕ) (p room : ℕ)
    → Wrote buf p (digits_loop base v room) (old_digits base v buf p room)
old_digits-digits base v buf p zero = nothing base v buf p
old_digits-digits base v buf p (suc room) =
    let c = digit_char (v % base) in
    let (same, at, below) =
      old_digits-digits base (v / base) (stored base v room p buf) (suc p) room in
    elim (Bool-cases (v / base == 0)) [
      | inl done ↦
          subst2 (Wrote buf p) (sym (digits_loop-last base v room p buf done))
            (sym (old_digits-last base v room p buf done))
            (
              ap (λ x. x ∷ []) (update_self buf p c),
              omega arith,
              λ j lt. update_ne buf p j c (λ e. omega (arith, e)),
            )
      | inr more ↦
          subst2 (Wrote buf p) (sym (digits_loop-more base v room p buf more))
            (sym (old_digits-more base v room p buf more))
            (
              ap2 (below p (omega arith) ∙ update_self buf p c) same,
              omega (arith, at),
              λ j lt. below j (omega arith) ∙ update_ne buf p j c (λ e. omega (arith, e)),
            )
    ]

-- The text that the buffer holds after its first `p` characters have been turned round.
pub swap_loop-reverse :
    (f : ℕ → ℕ) (p : ℕ) → slots (swap_loop p 0 (p - 1) (update f p 0)) 0 p ≡ reverse (slots f 0 p)
swap_loop-reverse f p =
    slots-eq (swap_loop p 0 (p - 1) (update f p 0)) (λ j. f (0 + p - 1 - j)) 0 p
      (λ j lo hi.
        swap_loop-turned p 0 (p - 1) (update f p 0) (omega arith) j lo (omega arith)
        ∙ update_ne f p (0 + (p - 1) - j) 0 (λ e. omega (arith, e))
        ∙ ap f (omega arith))
    ∙ sym (reverse-slots f 0 p)

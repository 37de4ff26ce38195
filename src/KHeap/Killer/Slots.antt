-- ===== src/KHeap/Killer/Slots.antt =====
-- The pointers in the slots of an array that hold a block.
use os_learning.Base.{
  ℕ, zero, suc, ◌<◌, ◌≡◌, refl, sym, ap, ◌∙◌, Bool, true, false, arith, ◌==◌, if◌then◌else◌,
  Bool-cases, inl, inr, List, [], ◌∷◌, ◌++◌, update, update_self, update_ne, ==_iff,
}

-- Of the slots below `n` those that `holding` says.
abbrev pub live_of : (ℕ → ℕ) → (ℕ → Bool) → ℕ → List ℕ
live_of ptrs holding zero = []
live_of ptrs holding (suc n) =
    if holding n then ptrs n ∷ live_of ptrs holding n else live_of ptrs holding n

pub live_of-eq :
    (ptrs ptrs' : ℕ → ℕ) (holding holding' : ℕ → Bool) (n : ℕ)
    → ((j : ℕ) → j < n → holding' j ≡ holding j)
    → ((j : ℕ) → j < n → holding j ≡ true → ptrs' j ≡ ptrs j)
    → live_of ptrs' holding' n ≡ live_of ptrs holding n
live_of-eq ptrs ptrs' holding holding' zero same kept = refl
live_of-eq ptrs ptrs' holding holding' (suc n) same kept =
    let rest =
      live_of-eq ptrs ptrs' holding holding' n (λ j lt. same j (omega arith))
        (λ j lt h. kept j (omega arith) h) in
    elim (Bool-cases (holding n)) [
      | inl h ↦ rw (same n (omega arith), h, kept n (omega arith) h, rest) refl
      | inr h ↦ rw (same n (omega arith), h) rest
    ]

pub live_of-none : (ptrs : ℕ → ℕ) (n : ℕ) → live_of ptrs (λ j. false) n ≡ []
live_of-none ptrs zero = refl
live_of-none ptrs (suc n) = live_of-none ptrs n

-- A slot that holds a block, and the list without it.
pub live_of-split :
    (ptrs : ℕ → ℕ) (holding : ℕ → Bool) (i n : ℕ)
    → i < n
    → holding i ≡ true
    → (xs ys : List ℕ) × (live_of ptrs holding n ≡ xs ++ ptrs i ∷ ys)
      × (live_of ptrs (update holding i false) n ≡ xs ++ ys)
live_of-split ptrs holding i zero lt h = absurd (omega arith)
live_of-split ptrs holding i (suc n) lt h = elim (Bool-cases (i == n)) [
  | inl here ↦
      let last : i ≡ n = ground arith in
      let held : holding n ≡ true = ap holding (sym last) ∙ h in
      let rest =
        live_of-eq ptrs ptrs holding (update holding i false) n
          (λ j lt'. update_ne holding i j false (λ e. omega (arith, e))) (λ j lt' h'. refl) in
      (
        [],
        live_of ptrs holding n,
        rw (held) (ap (λ p. p ∷ live_of ptrs holding n) (ap ptrs (sym last))),
        rw (here) rest,
      )
  | inr later ↦
      let (xs, ys, full, less) = live_of-split ptrs holding i n (ground arith) h in
      elim (Bool-cases (holding n)) [
        | inl held ↦ (
          ptrs n ∷ xs,
          ys,
          rw held (ap (λ l. ptrs n ∷ l) full),
          rw (later, held) (ap (λ l. ptrs n ∷ l) less),
        )
        | inr empty ↦ (xs, ys, rw empty full, rw (later, empty) less)
      ]
]

-- A slot that gets a block, and the list with it.
pub live_of-more :
    (ptrs : ℕ → ℕ) (holding : ℕ → Bool) (i n p : ℕ)
    → i < n
    → holding i ≡ false
    → (xs ys : List ℕ) × (live_of (update ptrs i p) (update holding i true) n ≡ xs ++ p ∷ ys)
      × (live_of ptrs holding n ≡ xs ++ ys)
live_of-more ptrs holding i n p lt h =
    let (xs, ys, full, less) =
      live_of-split (update ptrs i p) (update holding i true) i n lt (update_self holding i true) in
    (
      xs,
      ys,
      full ∙ ap (λ q. xs ++ q ∷ ys) (update_self ptrs i p),
      sym (
            live_of-eq ptrs (update ptrs i p) holding (update (update holding i true) i false) n
              (λ j lt'. elim (Bool-cases (i == j)) [
                | inl here ↦ ground (arith, ap holding ((==_iff i j).0 here), h)
                | inr other ↦ ground arith
              ])
              (λ j lt' held. update_ne ptrs i j p (λ e. cc)))
          ∙ less,
    )

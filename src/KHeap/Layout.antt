-- ===== src/KHeap/Layout.antt =====
-- The heap as a sequence of blocks without gaps: what the records in memory stand for.
use os_learning.Base.{
  ℕ, ◌+◌, ◌≤◌, ◌<◌, ◌≡◌, refl, sym, ap, subst, ◌⊎◌, inl, inr, Bool, true, false, arith,
  if◌then◌else◌, Bool-cases, List, [], ◌∷◌, ◌++◌,
}
use os_learning.Memory.{Mem}
use os_learning.OrderedArray.Insert.{count}
use os_learning.KHeap.Blocks.{IsBlock, IsBlock-eq}

pub record Block : Type 0 where
  pub size : ℕ
  pub free : Bool

-- IS_HOLE and NOT_HOLE
abbrev pub flag : Bool → ℕ
flag free = if free then 1 else 0

-- The address behind the blocks.
abbrev pub after : ℕ → List Block → ℕ
after start [] = start
after start (b ∷ bs) = after (start + 17 + b.size) bs

-- The blocks lie in memory one behind the other, from `start` to `end`.
abbrev pub Layout : Mem → ℕ → List Block → ℕ → Type 0
Layout m start [] end = start ≡ end
Layout m start (b ∷ bs) end =
    IsBlock m start b.size (flag b.free) × (0 < b.size) × Layout m (start + 17 + b.size) bs end

-- The addresses of the holes.
abbrev pub holes : ℕ → List Block → List ℕ
holes start [] = []
holes start (b ∷ bs) =
    if b.free then start ∷ holes (start + 17 + b.size) bs else holes (start + 17 + b.size) bs

-- The blocks in use, by address and size: the abstract view of the heap.
abbrev pub used : ℕ → List Block → List (ℕ × ℕ)
used start [] = []
used start (b ∷ bs) =
    if b.free
    then used (start + 17 + b.size) bs
    else (start, b.size) ∷ used (start + 17 + b.size) bs

-- The address lies in one of the blocks, its records included.
abbrev pub Covered : List (ℕ × ℕ) → ℕ → Type 0
Covered [] x = ⊥
Covered ((start, size) ∷ l) x = ((start ≤ x) × (x < start + 17 + size)) ⊎ Covered l x

-- No two holes touch. The first argument says whether a hole lies in front.
abbrev pub Coalesced : Bool → List Block → Type 0
Coalesced before [] = Unit {0}
Coalesced before (b ∷ bs) = ((before ≡ true) → b.free ≡ false) × Coalesced b.free bs

pub after-ge : (start : ℕ) (bs : List Block) → start ≤ after start bs
after-ge start [] = omega arith
after-ge start (b ∷ bs) = omega (arith, after-ge (start + 17 + b.size) bs)

pub after-append :
    (start : ℕ) (xs ys : List Block) → after start (xs ++ ys) ≡ after (after start xs) ys
after-append start [] ys = refl
after-append start (b ∷ bs) ys = after-append (start + 17 + b.size) bs ys

pub Layout-after :
    (m : Mem) (start : ℕ) (bs : List Block) (end : ℕ) → Layout m start bs end → after start bs ≡ end
Layout-after m start [] end l = l
Layout-after m start (b ∷ bs) end l = Layout-after m (start + 17 + b.size) bs end l.2

pub Layout-append :
    (m : Mem) (start : ℕ) (xs ys : List Block) (middle end : ℕ)
    → Layout m start xs middle
    → Layout m middle ys end
    → Layout m start (xs ++ ys) end
Layout-append m start [] ys middle end l r = subst (λ a. Layout m a ys end) (sym l) r
Layout-append m start (b ∷ bs) ys middle end l r =
    (l.0, l.1, Layout-append m (start + 17 + b.size) bs ys middle end l.2 r)

pub Layout-split :
    (m : Mem) (start : ℕ) (xs ys : List Block) (end : ℕ)
    → Layout m start (xs ++ ys) end
    → Layout m start xs (after start xs) × Layout m (after start xs) ys end
Layout-split m start [] ys end l = (refl, l)
Layout-split m start (b ∷ bs) ys end l =
    let rest = Layout-split m (start + 17 + b.size) bs ys end l.2 in ((l.0, l.1, rest.0), rest.1)

-- Blocks are not changed by a write elsewhere.
pub Layout-eq :
    (m n : Mem) (start : ℕ) (bs : List Block) (end : ℕ)
    → ((x : ℕ) → start ≤ x → x < end → n x ≡ m x)
    → Layout m start bs end
    → Layout n start bs end
Layout-eq m n start [] end same l = l
Layout-eq m n start (b ∷ bs) end same l =
    let reach : start + 17 + b.size ≤ end =
      omega (
        arith,
        after-ge (start + 17 + b.size) bs,
        Layout-after m (start + 17 + b.size) bs end l.2,
      ) in
    (
      IsBlock-eq m n start b.size (flag b.free) (λ x t. same x (omega arith) (omega arith)) l.0,
      l.1,
      Layout-eq m n (start + 17 + b.size) bs end (λ x lo hi. same x (omega arith) hi) l.2,
    )

pub count-append : (x : ℕ) (xs ys : List ℕ) → count x (xs ++ ys) ≡ count x xs + count x ys
unfolding count
count-append x [] ys = omega arith
count-append x (y ∷ xs) ys = omega (arith, count-append x xs ys)

pub holes-append :
    (start : ℕ) (xs ys : List Block)
    → holes start (xs ++ ys) ≡ holes start xs ++ holes (after start xs) ys
holes-append start [] ys = refl
holes-append start (b ∷ bs) ys = elim (Bool-cases b.free) [
  | inl hole ↦ rw hole (ap (λ l. start ∷ l) (holes-append (start + 17 + b.size) bs ys))
  | inr taken ↦ rw taken (holes-append (start + 17 + b.size) bs ys)
]

pub used-append :
    (start : ℕ) (xs ys : List Block)
    → used start (xs ++ ys) ≡ used start xs ++ used (after start xs) ys
used-append start [] ys = refl
used-append start (b ∷ bs) ys = elim (Bool-cases b.free) [
  | inl hole ↦ rw hole (used-append (start + 17 + b.size) bs ys)
  | inr taken ↦ rw taken (ap (λ l. (start, b.size) ∷ l) (used-append (start + 17 + b.size) bs ys))
]

pub Covered-append :
    (xs ys : List (ℕ × ℕ)) (x : ℕ) → Covered (xs ++ ys) x → Covered xs x ⊎ Covered ys x
Covered-append [] ys x c = inr c
Covered-append (b ∷ xs) ys x (inl h) = inl (inl h)
Covered-append (b ∷ xs) ys x (inr h) = elim (Covered-append xs ys x h) [
  | inl l ↦ inl (inr l)
  | inr r ↦ inr r
]

pub Covered-bounds :
    (start : ℕ) (bs : List Block) (x : ℕ)
    → Covered (used start bs) x
    → (start ≤ x) × (x < after start bs)
Covered-bounds start [] x c = absurd c
Covered-bounds start (b ∷ bs) x c = elim (Bool-cases b.free) [
  | inl hole ↦
      let c' : Covered (used (start + 17 + b.size) bs) x = rw hole at c in
      let rest = Covered-bounds (start + 17 + b.size) bs x c' in (omega (arith, rest.0), rest.1)
  | inr taken ↦
      let c' : ((start ≤ x) × (x < start + 17 + b.size))
          ⊎ Covered (used (start + 17 + b.size) bs) x =
        rw taken at c in
      elim c' [
        | inl here ↦ (here.0, omega (arith, here.1, after-ge (start + 17 + b.size) bs))
        | inr there ↦
            let rest = Covered-bounds (start + 17 + b.size) bs x there in
            (omega (arith, rest.0), rest.1)
      ]
]

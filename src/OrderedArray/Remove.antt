-- ===== src/OrderedArray/Remove.antt =====
-- `ordered_array_remove`, `ordered_array_find_element` and `ordered_array_remove_element` on the
-- list of the contents.
use os_learning.Base.{
  ℕ, zero, suc, ◌+◌, ◌-◌, ◌≤◌, ◌<◌, ◌≡◌, ap, subst, ◌∙◌, ◌⊎◌, inl, inr, true, false, ◌∷◌, arith,
  leb, ◌==◌, Bool-cases,
}
use os_learning.OrderedArray.{
  OrderedArray, shift_down, find_from, find_element, remove, remove_element,
}
use os_learning.OrderedArray.Contents.{
  slots, contents, slots-shift, remove_at, erase, has, shift_down-at,
}

-- An array whose items from position `d` on have moved one down.
remove_at-slots :
    (f g : ℕ → ℕ) (i d n : ℕ)
    → d ≤ n
    → ((j : ℕ) → j < i + d → g j ≡ f j)
    → ((j : ℕ) → i + d ≤ j → j < i + n → g j ≡ f (suc j))
    → slots g i n ≡ remove_at d (slots f i (suc n))
unfolding remove_at
remove_at-slots f g i zero n h below above = slots-shift g f i n (λ j a b. above j (omega arith) b)
remove_at-slots f g i (suc d) zero h below above = absurd (omega arith)
remove_at-slots f g i (suc d) (suc n) h below above = ground (
  arith,
  below i (omega arith),
  remove_at-slots f g (suc i) d n (omega arith) (λ j b. below j (omega arith))
      (λ j a b. above j (omega arith) (omega arith)),
)

-- The search stops at the first occurrence.
record Hit (f : ℕ → ℕ) (ele i n : ℕ) : Type 0 where
  d : ℕ
  found : find_from f ele i n ≡ i + d
  inside : d < n
  first : remove_at d (slots f i n) ≡ erase ele (slots f i n)

find_from-Hit : (f : ℕ → ℕ) (ele i n : ℕ) → has ele (slots f i n) ≡ true → Hit f ele i n
unfolding find_from has remove_at erase
find_from-Hit f ele i zero h = cc
find_from-Hit f ele i (suc n) h = elim (Bool-cases (f i == ele)) [
  | inl here ↦ record {
    d = 0;
    found = rw here (omega arith);
    inside = omega arith;
    first = rw here;
  }
  | inr later ↦
      let r = find_from-Hit f ele (suc i) n (ground arith) in
      record {
        d = suc r.d;
        found = rw later (omega (arith, r.found));
        inside = omega (arith, r.inside);
        first = rw later (ap (λ l. f i ∷ l) r.first);
      }
]

find_from-missing :
    (f : ℕ → ℕ) (ele i n : ℕ) → has ele (slots f i n) ≡ false → find_from f ele i n ≡ i + n
unfolding find_from has
find_from-missing f ele i zero h = omega arith
find_from-missing f ele i (suc n) h = ground (arith, find_from-missing f ele (suc i) n)

slots-shift_down :
    (f : ℕ → ℕ) (d n : ℕ)
    → d ≤ n
    → slots (shift_down f d (n - d)) 0 n ≡ remove_at d (slots f 0 (suc n))
slots-shift_down f d n h =
    remove_at-slots f (shift_down f d (n - d)) 0 d n h
      (λ j b. ground (arith, shift_down-at f d (n - d) j))
      (λ j a b. ground (arith, shift_down-at f d (n - d) j))

-- The number of used slots, and so what follows it, is not zero where an index is in range.
shrink :
    (a : OrderedArray) (d : ℕ)
    → d < a.size
    → slots (shift_down a.array d (a.size - 1 - d)) 0 (a.size - 1) ≡ remove_at d (contents a)
shrink a d h =
    let e : suc (a.size - 1) ≡ a.size = omega arith in
    subst
      (λ n.
        slots (shift_down a.array d (a.size - 1 - d)) 0 (a.size - 1)
        ≡ remove_at d (slots a.array 0 n))
      e (slots-shift_down a.array d (a.size - 1) (omega arith))

-- For an index in range `ordered_array_remove` returns 1 and drops the item there from the
-- contents; out of range it returns 0 and changes nothing.
pub remove-remove_at :
    (a : OrderedArray) (i : ℕ)
    → ((i < a.size) × ((remove a i).1 ≡ 1) × (contents (remove a i).0 ≡ remove_at i (contents a)))
      ⊎ ((a.size ≤ i) × (remove a i ≡ (a, 0)))
unfolding remove
remove-remove_at a i = elim (Bool-cases (leb a.size i)) [
  | inl out ↦ inr (ground arith, rw out)
  | inr within ↦ inl (ground arith, rw within, rw within (shrink a i (ground arith)))
]

-- For an item that is in the array, `ordered_array_remove_element` returns 1 and drops its first
-- occurrence from the contents; otherwise it returns 0 and changes nothing.
pub remove_element-erase :
    (a : OrderedArray) (ele : ℕ)
    → ((has ele (contents a) ≡ true)
        × ((remove_element a ele).1 ≡ 1)
        × (contents (remove_element a ele).0 ≡ erase ele (contents a)))
      ⊎ ((has ele (contents a) ≡ false) × (remove_element a ele ≡ (a, 0)))
unfolding remove_element
remove_element-erase a ele = elim (Bool-cases (has ele (contents a))) [
  | inr missing ↦
      let e = find_from-missing a.array ele 0 a.size missing in
      let t : (find_from a.array ele 0 a.size == a.size) ≡ true = ground (arith, e) in
      inr (missing, rw t)
  | inl there ↦
      let r = find_from-Hit a.array ele 0 a.size there in
      let e : find_from a.array ele 0 a.size ≡ r.d = omega (arith, r.found) in
      let t : (r.d == a.size) ≡ false = ground (arith, r.inside) in
      inl (there, rw (e, t), rw (e, t) (shrink a r.d r.inside ∙ r.first))
]

-- `ordered_array_find_element` returns an index below the size for an item that is in the array,
-- and the size for any other.
pub find_element-has :
    (a : OrderedArray) (ele : ℕ)
    → ((has ele (contents a) ≡ true) × (find_element a ele < a.size))
      ⊎ ((has ele (contents a) ≡ false) × (find_element a ele ≡ a.size))
unfolding find_element
find_element-has a ele = elim (Bool-cases (has ele (contents a))) [
  | inr missing ↦ inr (missing, omega (arith, find_from-missing a.array ele 0 a.size missing))
  | inl there ↦
      let r = find_from-Hit a.array ele 0 a.size there in
      inl (there, omega (arith, r.found, r.inside))
]

-- ===== src/OrderedArray/Insert.antt =====
-- `ordered_array_insert` on the list of the contents, and the order that it keeps.
use os_learning.Base.{
  ℕ, zero, suc, ◌+◌, ◌≤◌, ◌<◌, ◌≡◌, refl, sym, subst, ◌⊎◌, inl, inr, true, false, List, [], ◌∷◌,
  arith, leb, ◌==◌, if◌then◌else◌, Bool-cases, update,
}
use os_learning.OrderedArray.{OrderedArray, Comparator, not_after, find_slot, shift_up, insert}
use os_learning.OrderedArray.Contents.{slots, contents, slots-shift, insert_list, shift_up-at}

module _ (comparator : Comparator) (item : ℕ) where
  find_slot-ge : (f : ℕ → ℕ) (i n : ℕ) → i ≤ find_slot comparator f item i n
  unfolding find_slot
  find_slot-ge f i zero = omega arith
  find_slot-ge f i (suc n) = ground (arith, find_slot-ge f (suc i) n)

  find_slot-le : (f : ℕ → ℕ) (i n : ℕ) → find_slot comparator f item i n ≤ i + n
  unfolding find_slot
  find_slot-le f i zero = omega arith
  find_slot-le f i (suc n) = ground (arith, find_slot-le f (suc i) n)

  -- An array with the item in the slot found and the items behind it moved one up.
  insert_list-slots :
      (f g : ℕ → ℕ) (i n k : ℕ)
      → k ≡ find_slot comparator f item i n
      → ((j : ℕ) → j < k → g j ≡ f j)
      → g k ≡ item
      → ((j : ℕ) → k ≤ j → j < i + n → g (suc j) ≡ f j)
      → slots g i (suc n) ≡ insert_list comparator item (slots f i n)
  unfolding find_slot insert_list
  insert_list-slots f g i zero k e below at above = ground arith
  insert_list-slots f g i (suc n) k e below at above =
      elim (Bool-cases (not_after comparator (f i) item)) [
        | inl later ↦ rw later (
            ground (
              arith,
              below i (ground (arith, e, find_slot-ge f (suc i) n)),
              insert_list-slots f g (suc i) n k (ground arith) below at
                  (λ j a b. above j a (omega arith)),
            ))
        | inr here ↦
            rw here
              (ground (arith, slots-shift f g i (suc n) (λ j a b. sym (above j (ground arith) b))))
      ]

  -- Where there is room, `ordered_array_insert` returns 1 and puts the item into the contents
  -- behind the items that it does not precede; where the storage is full it returns 0 and changes
  -- nothing.
  pub insert-insert_list :
      (a : OrderedArray)
      → ((a.size < a.max_size)
          × ((insert comparator a item).1 ≡ 1)
          × (contents (insert comparator a item).0 ≡ insert_list comparator item (contents a)))
        ⊎ ((a.max_size ≤ a.size) × (insert comparator a item ≡ (a, 0)))
  unfolding insert
  insert-insert_list a = elim (Bool-cases (leb a.max_size a.size)) [
    | inl full ↦ inr (ground arith, rw full)
    | inr room ↦ inl (ground arith, rw room, rw room placed)
  ]
    where
      k : ℕ
      k = find_slot comparator a.array item 0 a.size

      g : ℕ → ℕ
      g = update (shift_up a.array k a.size) k item

      placed : slots g 0 (a.size + 1) ≡ insert_list comparator item (contents a)
      placed =
          subst (λ n. slots g 0 n ≡ insert_list comparator item (contents a)) {x = suc a.size}
            (omega arith)
            (insert_list-slots a.array g 0 a.size k refl
              (λ j h. ground (arith, shift_up-at a.array k a.size j)) (ground arith)
              (λ j h b. ground (arith, shift_up-at a.array k a.size (suc j))))

-- Every item is not after the next.
abbrev pub IsSorted : Comparator → List ℕ → Type 0
IsSorted comparator [] = Unit {0}
IsSorted comparator (x ∷ []) = Unit {0}
IsSorted comparator (x ∷ y ∷ r) = (not_after comparator x y ≡ true) × IsSorted comparator (y ∷ r)

-- The number of occurrences of an item.
unfoldable pub count : ℕ → List ℕ → ℕ
count item [] = 0
count item (x ∷ xs) = (if x == item then 1 else 0) + count item xs

module _ (comparator : Comparator) (item : ℕ)
    (total : (x y : ℕ) → not_after comparator x y ≡ false → not_after comparator y x ≡ true) where
  insert_list-IsSorted_cons :
      (x : ℕ) (xs : List ℕ)
      → not_after comparator x item ≡ true
      → IsSorted comparator (x ∷ xs)
      → IsSorted comparator (x ∷ insert_list comparator item xs)
  unfolding insert_list
  insert_list-IsSorted_cons x [] h s = (h, tt)
  insert_list-IsSorted_cons x (y ∷ r) h s = elim (Bool-cases (not_after comparator y item)) [
    | inl later ↦ rw later (s.0, insert_list-IsSorted_cons y r later s.1)
    | inr here ↦ rw here (h, (total y item here, s.1))
  ]

  insert_list-IsSorted :
      (xs : List ℕ) → IsSorted comparator xs → IsSorted comparator (insert_list comparator item xs)
  unfolding insert_list
  insert_list-IsSorted [] s = tt
  insert_list-IsSorted (x ∷ xs) s = elim (Bool-cases (not_after comparator x item)) [
    | inl later ↦ rw later (insert_list-IsSorted_cons x xs later s)
    | inr here ↦ rw here (total x item here, s)
  ]

  -- For a comparator under which of two items one does not come after the other,
  -- `ordered_array_insert` keeps contents in order that were in order.
  pub insert-IsSorted :
      (a : OrderedArray)
      → IsSorted comparator (contents a)
      → IsSorted comparator (contents (insert comparator a item).0)
  insert-IsSorted a s = elim (insert-insert_list comparator item a) [
    | inl (room, done, e) ↦ rw e (insert_list-IsSorted (contents a) s)
    | inr (full, e) ↦ rw e s
  ]

-- Insertion adds one occurrence of the item and no other.
pub count-insert_list :
    (comparator : Comparator) (item e : ℕ) (xs : List ℕ)
    → count e (insert_list comparator item xs) ≡ (if item == e then 1 else 0) + count e xs
unfolding count insert_list
count-insert_list comparator item e [] = refl
count-insert_list comparator item e (x ∷ xs) =
    ground (arith, count-insert_list comparator item e xs)

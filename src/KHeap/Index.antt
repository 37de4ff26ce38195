-- ===== src/KHeap/Index.antt =====
-- The index against the list of the holes that it should hold, in any order.
use os_learning.Base.{
  ℕ, zero, suc, ◌+◌, ◌-◌, ◌≤◌, ◌<◌, ◌≡◌, ap, ◌∙◌, subst, true, arith, ◌==◌, ==_iff, if◌then◌else◌,
  Bool-cases, inl, inr, List, [], ◌∷◌, length,
}
use os_learning.OrderedArray
use os_learning.OrderedArray.{OrderedArray, Comparator, not_after}
use os_learning.OrderedArray.Contents.{slots, remove_at, contents, erase, has}
use os_learning.OrderedArray.Insert.{count, insert-insert_list, count-insert_list}
use os_learning.OrderedArray.Remove.{remove-remove_at, remove_element-erase}
use os_learning.Memory.{Mem, ok}
use os_learning.KHeap.{KHeap, block_comparator, index_insert, index_remove}

-- The index holds the items of the list, each as often.
pub record IsIndex (a : OrderedArray) (l : List ℕ) : Type 0 where
  pub counts : (x : ℕ) → count x (contents a) ≡ count x l
  pub sized : a.size ≡ length l

pub IsIndex-reorder :
    (a : OrderedArray) (l l' : List ℕ)
    → IsIndex a l
    → ((x : ℕ) → count x l ≡ count x l')
    → length l ≡ length l'
    → IsIndex a l'
IsIndex-reorder a l l' v same len = record {
  counts = λ x. v.counts x ∙ same x;
  sized = v.sized ∙ len;
}

pub has_of_count : (i : ℕ) (xs : List ℕ) → 0 < count i xs → has i xs ≡ true
unfolding count has
has_of_count i [] h = absurd (omega arith)
has_of_count i (x ∷ xs) h = ground (arith, has_of_count i xs)

count-erase :
    (i x : ℕ) (xs : List ℕ)
    → has i xs ≡ true
    → count x (erase i xs) + (if i == x then 1 else 0) ≡ count x xs
unfolding count has erase
count-erase i x [] h = cc
count-erase i x (y ∷ xs) h = ground (arith, count-erase i x xs)

insert-fields :
    (c : Comparator) (a : OrderedArray) (item : ℕ)
    → a.size < a.max_size
    → ((OrderedArray.insert c a item).0.size ≡ a.size + 1)
      × ((OrderedArray.insert c a item).0.max_size ≡ a.max_size)
unfolding OrderedArray.insert
insert-fields c a item room = ground arith

remove_element-fields :
    (a : OrderedArray) (item : ℕ)
    → (OrderedArray.remove_element a item).1 ≡ 1
    → ((OrderedArray.remove_element a item).0.size ≡ a.size - 1)
      × ((OrderedArray.remove_element a item).0.max_size ≡ a.max_size)
unfolding OrderedArray.remove_element
remove_element-fields a item done = ground arith

module _ (m : Mem) (h : KHeap) (item : ℕ) (l : List ℕ) where
  -- Where the storage has room, the item joins the index.
  pub index_insert-IsIndex :
      IsIndex h.index l
      → h.index.size < h.index.max_size
      → IsIndex (index_insert m h item).index (item ∷ l)
  unfolding index_insert count
  index_insert-IsIndex v room = elim (insert-insert_list (block_comparator m) item h.index) [
    | inr (full, _) ↦ absurd (omega arith)
    | inl (_, _, e) ↦ record {
      counts = λ x.
          ap (count x) e
          ∙ count-insert_list (block_comparator m) item x (contents h.index)
          ∙ ap (λ n. (if item == x then 1 else 0) + n) (v.counts x);
      sized = omega (arith, (insert-fields (block_comparator m) h.index item room).0, v.sized);
    }
  ]

  pub index_insert-max_size :
      h.index.size < h.index.max_size → (index_insert m h item).index.max_size ≡ h.index.max_size
  unfolding index_insert
  index_insert-max_size room = (insert-fields (block_comparator m) h.index item room).1

-- What is in the index can be removed from it.
pub record Removed (h : KHeap) (item : ℕ) (l : List ℕ) : Type 0 where
  pub index : OrderedArray
  pub result : index_remove h item ≡ ok (record h { index = index })
  pub listed : IsIndex index l
  pub max_same : index.max_size ≡ h.index.max_size

pub index_remove-Removed :
    (h : KHeap) (item : ℕ) (l : List ℕ) → IsIndex h.index (item ∷ l) → Removed h item l
unfolding index_remove count
index_remove-Removed h item l v = elim (remove_element-erase h.index item) [
  | inr (missing, _) ↦
      let there = has_of_count item (contents h.index) (ground (arith, v.counts item)) in cc
  | inl (there, done, e) ↦ record {
    index = (OrderedArray.remove_element h.index item).0;
    result = rw done;
    listed = record {
      counts = λ x.
          ap (count x) e ∙ ground (arith, count-erase item x (contents h.index) there, v.counts x);
      sized = omega (arith, (remove_element-fields h.index item done).0, v.sized);
    };
    max_same = (remove_element-fields h.index item done).1;
  }
]

count-remove_at :
    (x p : ℕ) (f : ℕ → ℕ) (i n d : ℕ)
    → d < n
    → f (i + d) ≡ p
    → count x (remove_at d (slots f i n)) + (if p == x then 1 else 0) ≡ count x (slots f i n)
unfolding count remove_at
count-remove_at x p f i zero d h at = absurd (omega arith)
count-remove_at x p f i (suc n) zero h at =
    let e : f i ≡ p = subst (λ j. f j ≡ p) (omega arith) at in rw e (omega arith)
count-remove_at x p f i (suc n) (suc d) h at =
    omega (
      arith,
      count-remove_at x p f (suc i) n d (omega arith) (subst (λ j. f j ≡ p) (omega arith) at),
    )

remove-fields :
    (a : OrderedArray) (i : ℕ)
    → i < a.size
    → ((OrderedArray.remove a i).0.size ≡ a.size - 1)
      × ((OrderedArray.remove a i).0.max_size ≡ a.max_size)
unfolding OrderedArray.remove
remove-fields a i h = ground arith

-- `ordered_array_remove` at a slot takes that item out of the index.
pub remove-IsIndex :
    (a : OrderedArray) (i : ℕ) (l : List ℕ)
    → i < a.size
    → IsIndex a (a.array i ∷ l)
    → IsIndex (OrderedArray.remove a i).0 l × ((OrderedArray.remove a i).0.max_size ≡ a.max_size)
unfolding count
remove-IsIndex a i l h v = elim (remove-remove_at a i) [
  | inr (out, _) ↦ absurd (omega arith)
  | inl (_, _, e) ↦ (
    record {
      counts = λ x.
          ap (count x) e
          ∙ omega (
            arith,
            count-remove_at x (a.array i) a.array 0 a.size i h (ap a.array (omega arith)),
            v.counts x,
          );
      sized = omega (arith, v.sized, (remove-fields a i h).0);
    },
    (remove-fields a i h).1,
  )
]

count-slots : (f : ℕ → ℕ) (i n j : ℕ) → i ≤ j → j < i + n → 0 < count (f j) (slots f i n)
unfolding count
count-slots f i zero j lo hi = absurd (omega arith)
count-slots f i (suc n) j lo hi = elim (Bool-cases (i == j)) [
  | inl here ↦ let e : i ≡ j = (==_iff i j).0 here in rw e (ground arith)
  | inr later ↦ let rest = count-slots f (suc i) n j (ground arith) (omega arith) in omega arith
]

-- What stands in a slot is in the list.
pub count-slot :
    (a : OrderedArray) (i : ℕ) (l : List ℕ) → i < a.size → IsIndex a l → 0 < count (a.array i) l
count-slot a i l h v =
    omega (arith, v.counts (a.array i), count-slots a.array 0 a.size i (omega arith) (omega arith))

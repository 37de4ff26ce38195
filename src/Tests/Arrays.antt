-- ===== src/Tests/Arrays.antt =====
-- The ordered array on five slots.
use os_learning.Base.{ℕ, ◌≤◌, ◌<◌, ◌≡◌, refl, true, false, [], ◌∷◌, arith, ◌⊎◌}
use os_learning.OrderedArray.{
  OrderedArray, standard_comparator, not_after, create, insert, find_slot, shift_up, shift_down,
  remove_element, find_from,
}
use os_learning.OrderedArray.Contents.{contents, insert_list, erase, has}
use os_learning.OrderedArray.Insert.{IsSorted, insert-insert_list}
use os_learning.OrderedArray.Remove.{remove_element-erase}

abbrev empty : OrderedArray
empty = create (λ i. 0) 5

abbrev put : OrderedArray → ℕ → OrderedArray
put a item = (insert standard_comparator a item).0

abbrev three : OrderedArray
three = put (put (put empty 30) 10) 20

three_sorted : contents three ≡ 10 ∷ 20 ∷ 30 ∷ []
unfolding insert create find_slot shift_up standard_comparator
three_sorted = refl

removed : contents (remove_element three 20).0 ≡ 10 ∷ 30 ∷ []
unfolding insert create find_slot shift_up standard_comparator remove_element find_from shift_down
removed = refl

insert-insert_list_example :
    ((empty.size < empty.max_size)
      × ((insert standard_comparator empty 7).1 ≡ 1)
      × (contents (insert standard_comparator empty 7).0
          ≡ insert_list standard_comparator 7 (contents empty)))
    ⊎ ((empty.max_size ≤ empty.size) × (insert standard_comparator empty 7 ≡ (empty, 0)))
insert-insert_list_example = insert-insert_list standard_comparator 7 empty

total :
    (x y : ℕ) → not_after standard_comparator x y ≡ false → not_after standard_comparator y x ≡ true
unfolding standard_comparator
total x y h = ground arith

three-IsSorted : IsSorted standard_comparator (contents three)
unfolding insert create find_slot shift_up standard_comparator
three-IsSorted = (refl, (refl, tt))

remove_element-erase_example :
    ((has 20 (contents three) ≡ true)
      × ((remove_element three 20).1 ≡ 1)
      × (contents (remove_element three 20).0 ≡ erase 20 (contents three)))
    ⊎ ((has 20 (contents three) ≡ false) × (remove_element three 20 ≡ (three, 0)))
remove_element-erase_example = remove_element-erase three 20

-- ===== src/OrderedArray.antt =====
-- The ordered array, 08.kernel-mm/kernel/lib/ordered_array.c. The caller's storage is a function of
-- the slot's index; the comparator is an argument, and its results -1, 0 and 1 are the values of
-- `Ordering`.
pub mod Contents
pub mod Remove
pub mod Insert
use Prim.Native.Nat.{Ordering, compare}
use os_learning.Base.{
  ℕ, zero, suc, ◌+◌, ◌-◌, Bool, true, false, ltb, leb, ◌==◌, if◌then◌else◌, update,
}

pub record OrderedArray : Type 0 where
  pub array : ℕ → ℕ
  pub size : ℕ
  pub max_size : ℕ

abbrev pub Comparator : Type 0
Comparator = ℕ → ℕ → Ordering

unfoldable pub standard_comparator : Comparator
standard_comparator a b = compare a b

unfoldable pub create : (ℕ → ℕ) → ℕ → OrderedArray
create array max_size = record { array = array; size = 0; max_size = max_size }

-- `comparator(a, b) <= 0`
abbrev pub not_after : Comparator → ℕ → ℕ → Bool
not_after comparator a b = elim (comparator a b) [ Ordering.gt ↦ false | _ ↦ true ]

-- The `while` of `ordered_array_insert` from `iterator`, with the slots that are left.
unfoldable pub find_slot : Comparator → (ℕ → ℕ) → ℕ → ℕ → ℕ → ℕ
find_slot comparator array item iterator zero = iterator
find_slot comparator array item iterator (suc left) =
    let next = find_slot comparator array item (suc iterator) left in
    if not_after comparator (array iterator) item then next else iterator

-- `for (i = …; i > iterator; i--) array[i] = array[i - 1];`
unfoldable pub shift_up : (ℕ → ℕ) → ℕ → ℕ → ℕ → ℕ
shift_up array iterator zero = array
shift_up array iterator (suc i) =
    if ltb iterator (suc i) then shift_up (update array (suc i) (array i)) iterator i else array

-- The array, and 1 for success.
unfoldable pub insert : Comparator → OrderedArray → ℕ → OrderedArray × ℕ
insert comparator a item =
    if leb a.max_size a.size
    then (a, 0)
    else let iterator = find_slot comparator a.array item 0 a.size in
      (
        record a {
          array = update (shift_up a.array iterator a.size) iterator item;
          size = a.size + 1;
        },
        1,
      )

unfoldable pub get : OrderedArray → ℕ → ℕ
get a i = if leb a.size i then 0 else a.array i

-- `while (i < size - 1) { array[i] = array[i + 1]; i++; }`, with the rounds that are left.
unfoldable pub shift_down : (ℕ → ℕ) → ℕ → ℕ → ℕ → ℕ
shift_down array i zero = array
shift_down array i (suc left) = shift_down (update array i (array (suc i))) (suc i) left

unfoldable pub remove : OrderedArray → ℕ → OrderedArray × ℕ
remove a i =
    if leb a.size i
    then (a, 0)
    else (record a { array = shift_down a.array i (a.size - 1 - i); size = a.size - 1 }, 1)

-- The search of `ordered_array_find_element` from `i`; without a hit it ends at `size`.
unfoldable pub find_from : (ℕ → ℕ) → ℕ → ℕ → ℕ → ℕ
find_from array ele i zero = i
find_from array ele i (suc left) =
    let next = find_from array ele (suc i) left in if array i == ele then i else next

unfoldable pub find_element : OrderedArray → ℕ → ℕ
find_element a ele = find_from a.array ele 0 a.size

unfoldable pub remove_element : OrderedArray → ℕ → OrderedArray × ℕ
remove_element a ele =
    let index = find_from a.array ele 0 a.size in
    if index == a.size
    then (a, 0)
    else (record a { array = shift_down a.array index (a.size - 1 - index); size = a.size - 1 }, 1)

-- ===== src/OrderedArray/Contents.antt =====
-- The array as a list of its used slots, and the loops of ordered_array.c on that list.
use os_learning.Base.{
  ℕ, zero, suc, ◌+◌, ◌-◌, ◌≤◌, ◌<◌, ◌≡◌, refl, ap, Bool, true, false, ◌&&◌, List, [], ◌∷◌, arith,
  leb, ltb, ◌==◌, if◌then◌else◌, update, length,
}
use os_learning.OrderedArray.{OrderedArray, Comparator, not_after, shift_up, shift_down}

-- The slots `[i, i + n)`.
abbrev pub slots : (ℕ → ℕ) → ℕ → ℕ → List ℕ
slots array i zero = []
slots array i (suc n) = array i ∷ slots array (suc i) n

abbrev pub contents : OrderedArray → List ℕ
contents a = slots a.array 0 a.size

-- The item goes behind every item that it does not precede.
unfoldable pub insert_list : Comparator → ℕ → List ℕ → List ℕ
insert_list comparator item [] = item ∷ []
insert_list comparator item (x ∷ xs) =
    if not_after comparator x item then x ∷ insert_list comparator item xs else item ∷ x ∷ xs

-- The item at a position goes.
unfoldable pub remove_at : ℕ → List ℕ → List ℕ
remove_at i [] = []
remove_at zero (x ∷ xs) = xs
remove_at (suc i) (x ∷ xs) = x ∷ remove_at i xs

-- The first occurrence of the item goes.
unfoldable pub erase : ℕ → List ℕ → List ℕ
erase item [] = []
erase item (x ∷ xs) = if x == item then xs else x ∷ erase item xs

unfoldable pub has : ℕ → List ℕ → Bool
has item [] = false
has item (x ∷ xs) = if x == item then true else has item xs

pub slots-eq :
    (f g : ℕ → ℕ) (i n : ℕ) → ((j : ℕ) → i ≤ j → j < i + n → f j ≡ g j) → slots f i n ≡ slots g i n
slots-eq f g i zero h = refl
slots-eq f g i (suc n) h = ground (
  arith,
  h i (omega arith) (omega arith),
  slots-eq f g (suc i) n (λ j a b. h j (omega arith) (omega arith)),
)

pub slots-shift :
    (f g : ℕ → ℕ) (i n : ℕ)
    → ((j : ℕ) → i ≤ j → j < i + n → f j ≡ g (suc j))
    → slots f i n ≡ slots g (suc i) n
slots-shift f g i zero h = refl
slots-shift f g i (suc n) h = ground (
  arith,
  h i (omega arith) (omega arith),
  slots-shift f g (suc i) n (λ j a b. h j (omega arith) (omega arith)),
)

pub length-slots : (f : ℕ → ℕ) (i n : ℕ) → length (slots f i n) ≡ n
length-slots f i zero = refl
length-slots f i (suc n) = ap suc (length-slots f (suc i) n)

-- Each slot after the two loops that move items.
pub shift_down-at :
    (f : ℕ → ℕ) (i left j : ℕ)
    → shift_down f i left j ≡ (if leb i j && ltb j (i + left) then f (suc j) else f j)
unfolding shift_down
shift_down-at f i zero j = ground arith
shift_down-at f i (suc left) j =
    ground (arith, shift_down-at (update f i (f (suc i))) (suc i) left j)

pub shift_up-at :
    (f : ℕ → ℕ) (iterator i j : ℕ)
    → shift_up f iterator i j ≡ (if ltb iterator j && leb j i then f (j - 1) else f j)
unfolding shift_up
shift_up-at f iterator zero j = ground arith
shift_up-at f iterator (suc i) j = ground (arith, shift_up-at (update f (suc i) (f i)) iterator i j)

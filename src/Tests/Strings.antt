-- ===== src/Tests/Strings.antt =====
-- Memory with the texts `ab` at 100 and `ac` at 200, the arithmetic and the random numbers.
use os_learning.Base.{ℕ, suc, ◌-◌, ◌*◌, ◌^◌, ◌≡◌, inr, refl, arith, ◌==◌, if◌then◌else◌, [], ◌∷◌}
use os_learning.Memory.{Mem, ok}
use os_learning.Arith.{max, min, div, mod_floor}
use os_learning.Arith.Floor.{Floored, div-Floored}
use os_learning.Strings.{
  memset, memcpy, strcpy, strcpy_loop, memmove, copy_up, copy_down, strcmp, strlen, strlen_loop,
  fill,
}
use os_learning.Strings.Moves.{moved, memmove-moved}
use os_learning.Strings.Texts.{IsText, Compared, strcmp-Compared}
use os_learning.Random.Fixed.{draws, rand-fixed}

abbrev texts : Mem
texts x =
    if x == 100
    then 97
    else if x == 101
    then 98
    else if x == 200
    then 97
    else if x == 201
    then 99
    else 0

ab : IsText texts 100 (97 ∷ 98 ∷ [])
ab = (refl, omega arith, omega arith, (refl, omega arith, omega arith, refl))

ac : IsText texts 200 (97 ∷ 99 ∷ [])
ac = (refl, omega arith, omega arith, (refl, omega arith, omega arith, refl))

-- The text moves up by one, over itself.
memmove-moved_example :
    ((memmove texts 101 100 3).1 ≡ 101)
    × ((memmove texts 101 100 3).0 102 ≡ moved texts 101 100 3 102)
memmove-moved_example = memmove-moved texts 101 100 3 102

over_itself : (memmove texts 101 100 3).0 102 ≡ 98
unfolding memmove copy_up copy_down
over_itself = refl

strcmp-Compared_example :
    (r : ℕ) × (strcmp 3 texts 100 200 ≡ ok r) × Compared (97 ∷ 98 ∷ []) (97 ∷ 99 ∷ []) r
strcmp-Compared_example =
    strcmp-Compared 3 texts 100 200 (97 ∷ 98 ∷ []) (97 ∷ 99 ∷ []) ab ac (omega arith)

length_of_ab : strlen 3 texts 100 ≡ ok 2
unfolding strlen strlen_loop
length_of_ab = refl

rand-fixed_example : draws (λ i. i * 10) (suc (suc (suc 5))) 42 ≡ 1040457664
rand-fixed_example = rand-fixed (λ i. i * 10) 42 5

filled : (memset texts 100 (2 ^ 32 - 1) 4).0 103 ≡ 255
unfolding memset fill
filled = refl

copied : (memcpy texts 400 100 3).0 401 ≡ 98
unfolding memcpy copy_up
copied = refl

copied_text : strcpy 3 texts 400 100 ≡ ok (copy_up texts 400 100 3, 400)
unfolding strcpy strcpy_loop copy_up
copied_text = refl

larger : max 3 5 ≡ 5
unfolding max
larger = refl

smaller : min 3 5 ≡ 3
unfolding min
smaller = refl

-- -7 divided by 3.
div-Floored_example : Floored (2 ^ 32 - 7) 3 (div (2 ^ 32 - 7) 3) (mod_floor (2 ^ 32 - 7) 3)
div-Floored_example =
    div-Floored (2 ^ 32 - 7) 3 (omega arith) (omega arith) (omega arith) (inr (omega arith))

minus_three : div (2 ^ 32 - 7) 3 ≡ 2 ^ 32 - 3
unfolding div
minus_three = refl

two_left : mod_floor (2 ^ 32 - 7) 3 ≡ 2
unfolding mod_floor
two_left = refl

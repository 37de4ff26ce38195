-- ===== src/KHeap/Find.antt =====
-- `find_hole`: the first hole of the index, the smallest first, that fits the size.
use os_learning.Base.{ℕ, zero, suc, Bool, Option, none, some, ltb, leb, if◌then◌else◌}
use os_learning.OrderedArray
use os_learning.Memory.{Mem, add32, sub32, Run, ok, out_of_fuel, ◌>>=◌}
use os_learning.KHeap.{State, header_size, block_meta_size, size_of, align_to_page}

-- The `while` over page boundaries: the first one that fits with a hole in front of it.
unfoldable pub find_aligned : ℕ → ℕ → ℕ → ℕ → ℕ → Run (Option ℕ)
find_aligned zero start end size next_page_align = out_of_fuel
find_aligned (suc fuel) start end size next_page_align =
    let rest = find_aligned fuel start end size (add32 next_page_align 4096) in
    if leb (add32 next_page_align size) end
    then (if ltb block_meta_size (sub32 next_page_align start)
        then ok (some next_page_align)
        else rest)
    else ok none

-- One round of the `for`: the position for the data, if the hole at `header` fits. Two page
-- boundaries always settle it (`Bounds`), the third round of fuel is never reached.
unfoldable pub try_hole : Mem → ℕ → Bool → ℕ → Run (Option ℕ)
try_hole m size page_align header =
    let start = add32 header header_size in
    if page_align
    then find_aligned 3 start (add32 start (size_of m header)) size (align_to_page start)
    else if leb size (size_of m header)
    then ok (some start)
    else ok none

-- The `for` from `i`, with the rounds that are left: the index's slot and the position.
unfoldable pub find_loop : State → ℕ → Bool → ℕ → ℕ → Run (Option (ℕ × ℕ))
find_loop s size page_align i zero = ok none
find_loop s size page_align i (suc left) =
    let rest = find_loop s size page_align (suc i) left in
    try_hole s.mem size page_align (OrderedArray.get s.heap.index i) >>= λ r. elim r [
      | none ↦ rest
      | some alloc_pos ↦ ok (some (i, alloc_pos))
    ]

unfoldable pub find_hole : State → ℕ → Bool → Run (Option (ℕ × ℕ))
find_hole s size page_align = find_loop s size page_align 0 s.heap.index.size

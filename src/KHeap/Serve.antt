-- ===== src/KHeap/Serve.antt =====
-- `alloc` as a whole: it serves the request from the first hole that fits, and grows the heap where
-- none does.
use os_learning.Base.{
  ℕ, suc, ◌+◌, ◌^◌, ◌<◌, ◌≡◌, refl, subst, ◌⊎◌, inl, inr, Bool, true, arith, ltb, Option, none,
  some,
}
use os_learning.OrderedArray
use os_learning.Memory.{Run, ok, ◌>>=◌}
use os_learning.KHeap.{State, size_of}
use os_learning.KHeap.Blocks.{IsBlock}
use os_learning.KHeap.Find.{find_hole}
use os_learning.KHeap.Alloc.{take_hole, grow, alloc}
use os_learning.KHeap.Bounds.{Fits, Searched, found, nothing_fits, AreLow, find_hole-Searched}
use os_learning.KHeap.Take.{Taken, take_hole-Taken}

-- Every entry of the index is the header of a well-formed hole.
abbrev pub AreHoles : State → Type 0
AreHoles s =
    (i : ℕ)
    → i < s.heap.index.size
    → IsBlock s.mem (s.heap.index.array i) (size_of s.mem (s.heap.index.array i)) 1

module _ (s : State) (size : ℕ) (page_align : Bool) (pos : 0 < size) where
  -- The slot's hole fits the request at a position.
  abbrev pub SlotFits : ℕ → ℕ → Type 0
  SlotFits i alloc_pos =
      Fits (s.heap.index.array i + 9) (size_of s.mem (s.heap.index.array i)) size page_align
        alloc_pos

  Taken-of_slot :
      (i alloc_pos hole_size header : ℕ)
      → OrderedArray.get s.heap.index i ≡ header
      → IsBlock s.mem header hole_size 1
      → header + hole_size + 17 < 2 ^ 32
      → Fits (header + 9) hole_size size page_align alloc_pos
      → Taken s header hole_size size alloc_pos (take_hole s size page_align i alloc_pos)
  Taken-of_slot i alloc_pos hole_size header at =
      subst
        (λ h.
          IsBlock s.mem h hole_size 1
          → h + hole_size + 17 < 2 ^ 32
          → Fits (h + 9) hole_size size page_align alloc_pos
          → Taken s h hole_size size alloc_pos (take_hole s size page_align i alloc_pos))
        at (take_hole-Taken s size i alloc_pos hole_size page_align pos)

  get-inside :
      (i : ℕ) → i < s.heap.index.size → OrderedArray.get s.heap.index i ≡ s.heap.index.array i
  unfolding OrderedArray.get
  get-inside i h = ground arith

  -- What a call of `alloc` does, by what the search returns.
  pub alloc-found :
      (fuel i alloc_pos : ℕ)
      → find_hole s size page_align ≡ ok (some (i, alloc_pos))
      → alloc (suc fuel) s size page_align ≡ take_hole s size page_align i alloc_pos
  unfolding alloc
  alloc-found fuel i alloc_pos e = let t : ltb 0 size ≡ true = ground arith in rw (t, e)

  pub alloc-grow :
      (fuel : ℕ)
      → find_hole s size page_align ≡ ok none
      → alloc (suc fuel) s size page_align ≡ (grow s size >>= λ s'. alloc fuel s' size page_align)
  unfolding alloc
  alloc-grow fuel e = let t : ltb 0 size ≡ true = ground arith in rw (t, e)

  abbrev pub Outcome : ℕ → Type 0
  Outcome fuel =
      ((i : ℕ) × (alloc_pos : ℕ) × (i < s.heap.index.size)
        × SlotFits i alloc_pos
        × ((j p : ℕ) → j < i → ¬ (SlotFits j p))
        × Taken s (s.heap.index.array i) (size_of s.mem (s.heap.index.array i)) size alloc_pos
            (alloc (suc fuel) s size page_align))
      ⊎ (((j p : ℕ) → j < s.heap.index.size → ¬ (SlotFits j p))
          × (alloc (suc fuel) s size page_align
              ≡ (grow s size >>= λ s'. alloc fuel s' size page_align)))

  -- For a request of at least one byte, where every entry of the index is the header of a
  -- well-formed hole that lies, with room for the request and two pages, below 2 ^ 32: if a hole of
  -- the index fits the request, `alloc` returns a position that fits the first such hole,
  -- page-aligned where that is asked for, as the data of a well-formed used block that ends within
  -- the hole's data and is at least as large as the request and at most 17 bytes larger, and it
  -- writes no byte outside the hole; if none fits, `alloc` is growing the heap and calling itself
  -- again.
  pub alloc-Outcome : (fuel : ℕ) → AreLow s size → AreHoles s → Outcome fuel
  alloc-Outcome fuel low holes = served (find_hole-Searched s size low page_align) refl
    where
      served :
          {r : Run (Option (ℕ × ℕ))}
          → Searched s size page_align 0 r
          → find_hole s size page_align ≡ r
          → Outcome fuel
      served (found i alloc_pos ge lt f before) e = inl (
        i,
        alloc_pos,
        lt,
        f,
        λ j p h. before j p (omega arith) h,
        rw (alloc-found fuel i alloc_pos e) (
            Taken-of_slot i alloc_pos (size_of s.mem (s.heap.index.array i)) (s.heap.index.array i)
              (get-inside i lt) (holes i lt) (omega (arith, low i lt)) f),
      )
      served (nothing_fits none_fit) e =
          inr (λ j p h. none_fit j p (omega arith) h, alloc-grow fuel e)

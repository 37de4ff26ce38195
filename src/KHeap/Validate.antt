-- ===== src/KHeap/Validate.antt =====
-- `kheap_validate_print` accepts every heap that is well formed, and counts its blocks in use.
use os_learning.Base.{
  ℕ, zero, suc, ◌+◌, ◌%◌, ◌^◌, ◌<◌, ◌≡◌, sym, ap, ◌∙◌, subst, true, false, not, arith, ltb, leb,
  ◌==◌, Bool-cases, inl, inr, List, [], ◌∷◌, length,
}
use os_learning.OrderedArray
use os_learning.OrderedArray.Contents.{contents}
use os_learning.OrderedArray.Insert.{count}
use os_learning.OrderedArray.Remove.{find_element-has}
use os_learning.Memory.{ok}
use os_learning.KHeap.{State, is_hole_of, magic_of, kheap_magic}
use os_learning.KHeap.Api.{validate_loop, validate}
use os_learning.KHeap.Layout.{Block, Layout, holes, used}
use os_learning.KHeap.Index.{has_of_count}
use os_learning.KHeap.Invariant.{Range, IsHeap, Layout-ge}

module _ (s : State) (low : s.heap.end_address < 2 ^ 32) where
  -- The index holds the holes.
  abbrev Listed : ℕ → List Block → Type 0
  Listed start bs =
      (x : ℕ)
      → 0 < count x (holes start bs)
      → OrderedArray.find_element s.heap.index x < s.heap.index.size

  walk :
      (bs : List Block) (fuel start hole_num alloc_num : ℕ)
      → length bs < fuel
      → Layout s.mem start bs s.heap.end_address
      → Listed start bs
      → validate_loop fuel s start hole_num alloc_num
        ≡ ok (hole_num + length (holes start bs), alloc_num + length (used start bs))
  unfolding validate_loop count
  walk bs zero start hole_num alloc_num enough l listed = absurd (omega arith)
  walk [] (suc fuel) start hole_num alloc_num enough l listed =
      let stop : ltb start s.heap.end_address ≡ false = ground (arith, l) in
      let holes_same : hole_num + 0 ≡ hole_num = omega arith in
      let alloc_same : alloc_num + 0 ≡ alloc_num = omega arith in rw (stop, holes_same, alloc_same)
  walk (b ∷ bs) (suc fuel) start hole_num alloc_num enough l listed =
      let le = Layout-ge s.mem (start + 17 + b.size) bs s.heap.end_address l.2 in
      let go : ltb start s.heap.end_address ≡ true = ground arith in
      let magic : (magic_of s.mem start == kheap_magic) ≡ true = ground (arith, l.0.magic) in
      let next : (start + b.size + 17) % 2 ^ 32 ≡ start + 17 + b.size = omega arith in
      let within : leb (start + 17 + b.size) s.heap.end_address ≡ true = ground arith in
      elim (Bool-cases b.free) [
        | inl hole ↦
            let flagged : not (is_hole_of s.mem start == 0) ≡ true =
              ground (arith, l.0.hole, hole) in
            let there : ltb (OrderedArray.find_element s.heap.index start) s.heap.index.size
                ≡ true =
              ground (arith, listed start (rw hole (ground arith))) in
            let more : hole_num + suc (length (holes (start + 17 + b.size) bs))
                ≡ hole_num + 1 + length (holes (start + 17 + b.size) bs) =
              omega arith in
            rw (go, magic, l.0.sized, next, flagged, there, within, hole, more)
              (walk bs fuel (start + 17 + b.size) (hole_num + 1) alloc_num (omega arith) l.2
                (λ x h. listed x (rw hole (ground arith))))
        | inr taken ↦
            let flagged : not (is_hole_of s.mem start == 0) ≡ false =
              ground (arith, l.0.hole, taken) in
            let more : alloc_num + suc (length (used (start + 17 + b.size) bs))
                ≡ alloc_num + 1 + length (used (start + 17 + b.size) bs) =
              omega arith in
            rw (go, magic, l.0.sized, next, flagged, within, taken, more)
              (walk bs fuel (start + 17 + b.size) hole_num (alloc_num + 1) (omega arith) l.2
                (λ x h. listed x (rw taken h)))
      ]

-- On a well-formed heap the check of the whole heap ends, with fuel for one round more than there are
-- blocks, asserts nothing false, and returns the number of blocks in use.
pub validate-IsHeap :
    (r : Range) (s : State) (bs : List Block) (fuel : ℕ)
    → IsHeap r s bs
    → length bs < fuel
    → validate fuel s ≡ ok (length (used r.start bs))
unfolding validate
validate-IsHeap r s bs fuel v enough =
    let at_end : Layout s.mem r.start bs s.heap.end_address =
      subst (λ e. Layout s.mem r.start bs e) (sym v.placed.ends) v.layout in
    let all : (0 + length (holes r.start bs) == s.heap.index.size) ≡ true =
      ground (arith, v.listed.sized) in
    let listed : Listed s (omega (arith, v.placed.ends, v.placed.high)) r.start bs = λ x h.
      elim (find_element-has s.heap.index x) [
        | inl (_, below) ↦ below
        | inr (missing, _) ↦
            let there = has_of_count x (contents s.heap.index) (omega (arith, v.listed.counts x)) in
            cc
      ] in
    let walked =
      ap (λ a. validate_loop fuel s a 0 0) v.placed.starts
      ∙ walk s (omega (arith, v.placed.ends, v.placed.high)) bs fuel r.start 0 0 enough at_end
          listed in
    rw (walked, all) (ap ok (omega arith))

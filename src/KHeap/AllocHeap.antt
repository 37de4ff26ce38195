-- ===== src/KHeap/AllocHeap.antt =====
-- `alloc` on a heap that is well formed: it ends, and gives a block of its own.
use os_learning.Base.{
  ℕ, zero, suc, ◌+◌, ◌-◌, ◌*◌, ◌%◌, ◌^◌, ◌≤◌, ◌<◌, ◌≡◌, refl, sym, ap, ◌∙◌, subst, Bool, true,
  false, arith, if◌then◌else◌, inl, inr, List, [], ◌∷◌, ◌++◌, Option, none,
}
use os_learning.Memory.{Run, ok, panic, ◌>>=◌}
use os_learning.KHeap.{State, size_of, align_to_page}
use os_learning.KHeap.Alloc.{alloc, take_hole}
use os_learning.KHeap.Grow.{align_to_page_lem}
use os_learning.KHeap.Find.{find_hole}
use os_learning.KHeap.Bounds.{Fits, Searched, found, nothing_fits, find_hole-Searched}
use os_learning.KHeap.Layout.{Block, after, used, Covered, used-append}
use os_learning.KHeap.Invariant.{Range, IsHeap, last_free, last_free-snoc, hole_of}
use os_learning.KHeap.TakeHeap.{take_hole-Granted}
use os_learning.KHeap.GrowHeap.{
  extend, tail_room, tail_room-snoc, Enlarged, too_large, enlarged, growth-ge, grow-Enlarged,
}
use os_learning.KHeap.Serve.{alloc-found, alloc-grow}
use os_learning.KHeap.Holes.{hole_in, size_in, heap-AreLow, tail_fits}

-- What a call of `alloc` does: it panics, where the heap would have to grow past its limit, or it
-- returns the data of a block that is new among the blocks in use, at least as large as the
-- request, on a page boundary where that is asked for; the blocks fill the heap again, up to an end
-- that may have moved by at most `most`, and no byte of the blocks that were in use changes.
pub data Allocated (r : Range) (s : State) (bs : List Block) (size : ℕ) (page_align : Bool)
    (most : ℕ) : Run (State × ℕ) → Type 0 where
  refused : r.limit < r.end + most → Allocated r s bs size page_align most panic
  allocated :
      (s' : State) (blocks : List Block) (end alloc_pos used_size : ℕ) (xs ys : List (ℕ × ℕ))
      → IsHeap (record r { end = end }) s' blocks
      → used r.start bs ≡ xs ++ ys
      → used r.start blocks ≡ xs ++ (alloc_pos - 9, used_size) ∷ ys
      → size ≤ used_size
      → (page_align ≡ true → alloc_pos % 4096 ≡ 0)
      → ((x : ℕ) → Covered (used r.start bs) x → s'.mem x ≡ s.mem x)
      → end ≤ r.end + most
      → Allocated r s bs size page_align most (ok (s', alloc_pos))

module _ (size : ℕ) (page_align : Bool) (pos : 0 < size) where
  -- What the hole at the end gains, and how far the end moves, where the heap grows up to `fuel` times.
  abbrev gain : ℕ → ℕ
  gain zero = 0
  gain (suc fuel) = (align_to_page (size + 17) - 17) + gain fuel

  abbrev most : ℕ → ℕ
  most zero = 0
  most (suc fuel) = align_to_page (size + 17) + most fuel

  -- The hole that the search finds gives the block.
  Allocated-found :
      (r : Range) (s : State) (bs : List Block)
      → IsHeap r s bs
      → s.heap.index.size < r.max_size
      → (n i alloc_pos : ℕ) → i < s.heap.index.size
      → Fits
          (s.heap.index.array i + 9)
          (size_of s.mem (s.heap.index.array i))
          size
          page_align
          alloc_pos
      → Allocated r s bs size page_align n (take_hole s size page_align i alloc_pos)
  Allocated-found r s bs v room n i alloc_pos lt f =
      let h = hole_in r s bs v i lt in
      let fits : Fits (after r.start h.pre + 9) h.size size page_align alloc_pos =
        subst (λ x. Fits (x + 9) h.size size page_align alloc_pos) h.at
          (subst (λ m. Fits (s.heap.index.array i + 9) m size page_align alloc_pos)
            (size_in r s bs v i h).0 f) in
      let g =
        take_hole-Granted r s h.pre h.post h.size (subst (IsHeap r s) h.split v) i lt h.at size
          alloc_pos pos room page_align fits in
      let before : used r.start bs
          ≡ used r.start h.pre ++ used (after r.start h.pre + 17 + h.size) h.post =
        ap (used r.start) h.split ∙ used-append r.start h.pre (hole_of h.size ∷ h.post) in
      rw g.result (
        allocated g.state g.blocks r.end alloc_pos g.used_size (used r.start h.pre)
          (used (after r.start h.pre + 17 + h.size) h.post) g.heap before g.used_more g.enough
          f.aligned (λ x c. g.kept x (subst (λ u. Covered u x) before c)) (omega arith))

  -- After the heap has grown.
  Allocated-later :
      (r : Range) (s s' : State) (bs bs' : List Block) (ext n : ℕ)
      → used r.start bs' ≡ used r.start bs
      → ((x : ℕ) → Covered (used r.start bs) x → s'.mem x ≡ s.mem x)
      → {res : Run (State × ℕ)} → Allocated (extend r ext) s' bs' size page_align n res
      → Allocated r s bs size page_align (ext + n) res
  Allocated-later r s s' bs bs' ext n same kept (refused over) = refused (omega (arith, over))
  Allocated-later r s s' bs bs' ext n same kept
        (allocated s'' blocks end p m xs ys heap before more enough page kept' near) =
      allocated s'' blocks end p m xs ys heap (sym same ∙ before) more enough page
        (λ x c. kept' x (subst (λ u. Covered u x) (sym same) c) ∙ kept x c) (omega (arith, near))

  -- A hole that fits serves the request, and so what is left is the case of none.
  Allocated-of_search :
      (r : Range) (s : State) (bs : List Block) (n fuel : ℕ)
      → IsHeap r s bs
      → r.limit + size + 8192 < 2 ^ 32
      → s.heap.index.size < r.max_size
      → (((j p : ℕ)
            → j < s.heap.index.size
            → ¬ (
                Fits
                  (s.heap.index.array j + 9)
                  (size_of s.mem (s.heap.index.array j))
                  size
                  page_align
                  p))
          → find_hole s size page_align ≡ ok none
          → Allocated r s bs size page_align n (alloc (suc fuel) s size page_align))
      → Allocated r s bs size page_align n (alloc (suc fuel) s size page_align)
  Allocated-of_search r s bs n fuel v low room otherwise =
      searched (find_hole-Searched s size (heap-AreLow r s bs v size low) page_align) refl
    where
      searched :
          {hole : Run (Option (ℕ × ℕ))}
          → Searched s size page_align 0 hole
          → find_hole s size page_align ≡ hole
          → Allocated r s bs size page_align n (alloc (suc fuel) s size page_align)
      searched (found i alloc_pos ge lt f before) e =
          rw (alloc-found s size page_align pos fuel i alloc_pos e)
            (Allocated-found r s bs v room n i alloc_pos lt f)
      searched (nothing_fits none_fit) e = otherwise (λ j p h. none_fit j p (omega arith) h) e

  abbrev Growing : ℕ → Type 0
  Growing fuel =
      (r : Range) (s : State) (bs : List Block)
      → IsHeap r s bs
      → r.limit + size + 8192 < 2 ^ 32
      → s.heap.index.size + (if last_free false bs then 0 else 1) < r.max_size
      → size + 4113 ≤ tail_room bs + gain fuel
      → Allocated r s bs size page_align (most fuel) (alloc (suc fuel) s size page_align)

  -- After one growth it is as before, with a larger hole at the end.
  Allocated-of_grown :
      (fuel : ℕ)
      → Growing fuel
      → (r : Range) (s : State) (bs : List Block) → r.limit + size + 8192 < 2 ^ 32
      → s.heap.index.size + (if last_free false bs then 0 else 1) < r.max_size
      → size + 4113 ≤ tail_room bs + gain (suc fuel)
      → {g : Run State} → Enlarged r s bs (align_to_page (size + 17)) g
      → Allocated r s bs size page_align
          (most (suc fuel))
          (g >>= λ s'. alloc (suc fuel) s' size page_align)
  Allocated-of_grown fuel next r s bs low room enough (too_large over) = refused (omega arith)
  Allocated-of_grown fuel next r s bs low room enough
        (enlarged s' front n v' more same fewer kept) =
      let ext : ℕ = align_to_page (size + 17) in
      let ge : size + 17 ≤ ext = growth-ge r s size pos low in
      let last : last_free false (front ++ hole_of n ∷ []) ≡ true =
        last_free-snoc false front (hole_of n) in
      Allocated-later r s s' bs (front ++ hole_of n ∷ []) ext (most fuel) same kept (
        next (extend r ext) s' (front ++ hole_of n ∷ []) v' low
          (omega (arith, ap {B = ℕ} (λ f. if f then 0 else 1) last))
          (omega (arith, tail_room-snoc front (hole_of n))))

  -- As often as the heap has to grow, if that is enough for the hole at its end to fit.
  alloc-Growing : (fuel : ℕ) → Growing fuel
  alloc-Growing zero r s bs v low room enough =
      Allocated-of_search r s bs 0 zero v low (omega arith) (λ none_fit e.
        let (i, p, lt, f) = tail_fits r s bs v size page_align low (omega arith) in
        absurd (none_fit i p lt f))
  alloc-Growing (suc fuel) r s bs v low room enough =
      let next : Growing fuel = alloc-Growing fuel in
      Allocated-of_search r s bs (most (suc fuel)) (suc fuel) v low (omega arith) (λ none_fit e.
        rw (alloc-grow s size page_align pos (suc fuel) e) (
          Allocated-of_grown fuel next r s bs low room enough
            (grow-Enlarged r s size pos low bs v room)))

-- For a request of at least one byte on a well-formed heap whose limit lies below 2 ^ 32 by more
-- than the request and two pages, and whose index has room for two more holes: `alloc` ends after
-- at most four rounds. It panics only if the limit lies less than three times the rounded growth
-- above the heap's end; otherwise it returns the data of a block that is new among the blocks in
-- use, at least as large as the request, on a page boundary where that is asked for, the heap is
-- well formed again, up to an end that has moved by at most three times the rounded growth, and no
-- byte of the other blocks in use changes.
pub alloc-Allocated :
    (r : Range) (s : State) (bs : List Block) (size : ℕ) (page_align : Bool)
    → IsHeap r s bs
    → 0 < size
    → r.limit + size + 8192 < 2 ^ 32
    → s.heap.index.size + 1 < r.max_size
    → Allocated r s bs size page_align (3 * align_to_page (size + 17)) (alloc 4 s size page_align)
alloc-Allocated r s bs size page_align v pos low room =
    subst (λ n. Allocated r s bs size page_align n (alloc 4 s size page_align)) (omega arith)
      (alloc-Growing size page_align pos 3 r s bs v low (ground arith)
        (elim (align_to_page_lem (size + 17) (omega arith)) [
          | inl (_, page, lo, hi) ↦ omega arith
          | inr (over, _) ↦ absurd (omega arith)
        ]))

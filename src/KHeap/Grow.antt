-- ===== src/KHeap/Grow.antt =====
-- `kheap_expand` and `kheap_contract`: page-sized steps, and where the 32-bit sum wraps.
use os_learning.Base.{
  ℕ, ◌+◌, ◌%◌, ◌^◌, ◌≤◌, ◌<◌, ◌≡◌, ◌⊎◌, inl, inr, true, false, arith, leb, ◌==◌, Bool-cases, ==_iff,
}
use os_learning.Memory.{add32, Run, ok, panic}
use os_learning.KHeap.{KHeap, align_to_page, expand}

-- `align_to_page` rounds up to the next page boundary, or to 0 above the last one.
pub align_to_page_lem :
    (num : ℕ)
    → num < 2 ^ 32
    → ((num ≤ 0xFFFFF000)
        × (align_to_page num % 4096 ≡ 0)
        × (num ≤ align_to_page num)
        × (align_to_page num < num + 4096))
      ⊎ ((0xFFFFF000 < num) × (align_to_page num ≡ 0))
unfolding align_to_page
align_to_page_lem num h = elim (Bool-cases (leb num 0xFFFFF000)) [
  | inl small ↦ inl (ground arith, ground arith, ground arith, ground arith)
  | inr big ↦ inr (ground arith, ground arith)
]

-- `kheap_expand` where no sum wraps: nothing for nothing, a PANIC past the limit, and otherwise the
-- end and the size go up together by the rounded request.
pub data Expanded (h : KHeap) (n : ℕ) : Run (KHeap × ℕ) → Type 0 where
  nothing : n ≡ 0 → Expanded h n (ok (h, 0))
  too_big : h.max_address < h.end_address + align_to_page n → Expanded h n panic
  grown :
      n ≤ align_to_page n
      → h.end_address + align_to_page n ≤ h.max_address
      → Expanded h n (
          ok (
            record h {
              end_address = h.end_address + align_to_page n;
              size = h.size + align_to_page n;
            },
            align_to_page n,
          ))

module _ (h : KHeap) (n : ℕ) where
  -- If the request and the new end stay below 2 ^ 32 and the size does not exceed the end,
  -- `kheap_expand` returns 0 and changes nothing for a request of 0; it panics only past the limit;
  -- and otherwise it moves the end and the size up by the request rounded to pages, to an end
  -- within the limit.
  pub expand-Expanded :
      h.end_address + n + 4096 ≤ 2 ^ 32 → h.size ≤ h.end_address → Expanded h n (expand h n)
  unfolding expand
  expand-Expanded small sized = elim (Bool-cases (align_to_page n == 0)) [
    | inl none_asked ↦ rw none_asked (nothing (omega (arith, aligned, (==_iff _ 0).0 none_asked)))
    | inr some_asked ↦
        rw some_asked
          (elim (Bool-cases (leb (add32 h.end_address (align_to_page n)) h.max_address)) [
            | inr over ↦ rw over (too_big (ground (arith, aligned, small)))
            | inl within ↦
                let end_sum : add32 h.end_address (align_to_page n)
                    ≡ h.end_address + align_to_page n =
                  omega (arith, aligned) in
                let size_sum : add32 h.size (align_to_page n) ≡ h.size + align_to_page n =
                  omega (arith, aligned) in
                rw (within, end_sum, size_sum) (grown aligned.0 (ground (arith, aligned, small)))
          ])
  ]
    where
      aligned : (n ≤ align_to_page n) × (align_to_page n < n + 4096)
      aligned = elim (align_to_page_lem n (omega arith)) [
        | inl (_, _, lo, hi) ↦ (lo, hi)
        | inr (big, _) ↦ absurd (omega (arith, big, small))
      ]

  -- A request of at most 0xFFFFF000 bytes that takes the rounded end to 2 ^ 32 or above, but past
  -- it by no more than the limit, is not refused by `kheap_expand`: it returns the rounded request,
  -- and the heap's end is lower than before.
  pub expand_wraps :
      h.end_address < 2 ^ 32
      → 0 < n
      → n ≤ 0xFFFFF000
      → 2 ^ 32 ≤ h.end_address + align_to_page n
      → h.end_address + align_to_page n ≤ 2 ^ 32 + h.max_address
      → (h' : KHeap) × (expand h n ≡ ok (h', align_to_page n)) × (h'.end_address < h.end_address)
  unfolding expand
  expand_wraps bounded pos page wraps limit =
      let some_asked : (align_to_page n == 0) ≡ false = ground (arith, aligned) in
      let within : leb (add32 h.end_address (align_to_page n)) h.max_address ≡ true =
        ground (arith, aligned) in
      (wrapped_heap, rw (some_asked, within), omega (arith, aligned))
    where
      aligned : (n ≤ align_to_page n) × (align_to_page n < 2 ^ 32)
      aligned = elim (align_to_page_lem n (omega arith)) [
        | inl (_, m, lo, hi) ↦ (lo, omega arith)
        | inr (big, _) ↦ absurd (omega (arith, big))
      ]

      wrapped_heap : KHeap
      wrapped_heap = record h {
        end_address = add32 h.end_address (align_to_page n);
        size = add32 h.size (align_to_page n);
      }

-- ===== src/KHeap/Test.antt =====
-- `kheap_test`, the kernel's other test of its heap, which nothing calls.
pub mod Steps
pub mod Passed
use os_learning.Base.{ℕ, ◌*◌, update}
use os_learning.Memory.{Run, ok, ◌>>=◌}
use os_learning.KHeap.Api.{Kernel, kmalloc, kmalloc_aligned, kfree, validate}

-- `*ptr = value`
abbrev pub store : Kernel → ℕ → ℕ → Kernel
store k ptr value = record k { state = record (k.state) { mem = update k.state.mem ptr value } }

-- Two small blocks and a large one, and another small one in the place of the first.
unfoldable pub kheap_test_alloc : Kernel → Run (Kernel × ℕ × ℕ × ℕ × ℕ × ℕ)
kheap_test_alloc k = do
  (k, ptr) ← kmalloc 4 k 32
  let k = store k ptr 100
  (k, ptr1) ← kmalloc 4 k 200
  let k = store k ptr1 101
  (k, ptr2) ← kmalloc_aligned 4 k (4096 * 2)
  let k = store k ptr2 200
  k ← kfree 4 k ptr
  (k, ptr) ← kmalloc 4 k 14
  let k = store k ptr 100
  (k, ptr3) ← kmalloc 4 k 1
  let k = store k ptr3 5
  (k, ptr4) ← kmalloc_aligned 4 k (4096 * 10)
  let k = store k ptr4 200
  ok (k, ptr, ptr1, ptr2, ptr3, ptr4)

-- Then all five are freed, and the heap has to grow for what follows.
unfoldable pub kheap_test_free : ℕ → Kernel → ℕ → ℕ → ℕ → ℕ → ℕ → Run Kernel
kheap_test_free fuel k ptr ptr1 ptr2 ptr3 ptr4 = do
  k ← kfree 4 k ptr
  k ← kfree 4 k ptr1
  k ← kfree 4 k ptr2
  k ← kfree 4 k ptr3
  k ← kfree 4 k ptr4
  (k, ptr) ← kmalloc 4 k 32
  (k, ptr1) ← kmalloc 4 k 2621374
  (k, ptr2) ← kmalloc 4 k 2
  (k, ptr3) ← kmalloc 4 k 1
  (k, ptr4) ← kmalloc 4 k 10
  live ← validate fuel k.state
  ok k

unfoldable pub kheap_test : ℕ → Kernel → Run Kernel
kheap_test fuel k = kheap_test_alloc k >>= λ (k, ptr, ptr1, ptr2, ptr3, ptr4).
    kheap_test_free fuel k ptr ptr1 ptr2 ptr3 ptr4

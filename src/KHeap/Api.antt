-- ===== src/KHeap/Api.antt =====
-- The heap behind its lock: `init_kheap`, `kmalloc`, `kmalloc_aligned`, `kfree` and the check of
-- the whole heap, `kheap_validate_print` without its output.
use os_learning.Base.{
  ℕ, zero, suc, ◌+◌, ◌%◌, ◌^◌, Bool, true, false, not, ltb, leb, ◌==◌, if◌then◌else◌,
}
use os_learning.OrderedArray
use os_learning.Memory.{Mem, Run, ok, out_of_fuel, ◌>>=◌, ◌>>◌, assert}
use os_learning.KHeap.{
  State, kheap_magic, kheap_start, kheap_min_size, kheap_max, block_meta_size, magic_of, is_hole_of,
  size_of, create_kheap,
}
use os_learning.Sync.Locks.{yieldlock_init, yieldlock_lock, yieldlock_unlock}
use os_learning.KHeap.Alloc.{alloc}
use os_learning.KHeap.Free.{free}

unfoldable pub kmalloc_impl : ℕ → State → ℕ → Bool → Run (State × ℕ)
kmalloc_impl fuel s size align =
    if size == 0
    then ok (s, 0)
    else (do (s', ptr) ← alloc fuel s size align; assert (not (ptr == 0)); ok (s', ptr))

-- The static variables of kheap.c: the heap and its lock.
pub record Kernel : Type 0 where
  pub state : State
  pub kheap_lock : ℕ

-- `kmalloc` and `kmalloc_aligned`
unfoldable pub kmalloc_locked : ℕ → Kernel → ℕ → Bool → Run (Kernel × ℕ)
kmalloc_locked fuel k size align = do
  held ← yieldlock_lock fuel k.kheap_lock
  (s, ptr) ← kmalloc_impl fuel k.state size align
  ok (record { state = s; kheap_lock = yieldlock_unlock held }, ptr)

unfoldable pub kmalloc : ℕ → Kernel → ℕ → Run (Kernel × ℕ)
kmalloc fuel k size = kmalloc_locked fuel k size false

unfoldable pub kmalloc_aligned : ℕ → Kernel → ℕ → Run (Kernel × ℕ)
kmalloc_aligned fuel k size = kmalloc_locked fuel k size true

unfoldable pub kfree : ℕ → Kernel → ℕ → Run Kernel
kfree fuel k ptr = if ptr == 0 then ok k else (do
  held ← yieldlock_lock fuel k.kheap_lock
  s ← free k.state ptr
  ok (record { state = s; kheap_lock = yieldlock_unlock held }))

unfoldable pub init_kheap : ℕ → Mem → (ℕ → ℕ) → Run Kernel
init_kheap lock m array = do
  let free_lock = yieldlock_init lock
  s ← create_kheap m array kheap_start (kheap_start + kheap_min_size) kheap_max 0 0
  ok (record { state = s; kheap_lock = free_lock })

-- The walk over the blocks: the numbers of holes and of used blocks.
unfoldable pub validate_loop : ℕ → State → ℕ → ℕ → ℕ → Run (ℕ × ℕ)
validate_loop zero s start hole_num alloc_num = out_of_fuel
validate_loop (suc fuel) s start hole_num alloc_num =
    let next = (start + size_of s.mem start + block_meta_size) % 2 ^ 32 in
    let hole = not (is_hole_of s.mem start == 0) in
    let rest =
      validate_loop fuel s next (if hole then hole_num + 1 else hole_num)
        (if hole then alloc_num else alloc_num + 1) in
    if ltb start s.heap.end_address
    then (do
      assert (magic_of s.mem start == kheap_magic)
      assert (
          if hole
          then ltb (OrderedArray.find_element s.heap.index start) s.heap.index.size
          else true)
      assert (leb next s.heap.end_address)
      rest)
    else ok (hole_num, alloc_num)

unfoldable pub validate : ℕ → State → Run ℕ
validate fuel s = do
  (hole_num, alloc_num) ← validate_loop fuel s s.heap.start_address 0 0
  assert (hole_num == s.heap.index.size)
  ok alloc_num

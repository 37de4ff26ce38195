-- ===== src/KHeap/Kernel.antt =====
-- `kmalloc` and `kmalloc_aligned`: the heap behind its lock.
use os_learning.Base.{
  ℕ, ◌+◌, ◌-◌, ◌*◌, ◌^◌, ◌<◌, ◌≡◌, refl, ◌≢◌, Bool, true, false, not, arith, ◌==◌, List,
}
use os_learning.Memory.{Run, ok, panic}
use os_learning.Sync.Locks.{spin, locked_no, yieldlock_lock, yieldlock_unlock}
use os_learning.KHeap.{State, align_to_page}
use os_learning.KHeap.Alloc.{alloc}
use os_learning.KHeap.Api.{Kernel, kmalloc_impl, kmalloc_locked}
use os_learning.KHeap.Layout.{Block, after-ge}
use os_learning.KHeap.Invariant.{Range, IsHeap}
use os_learning.KHeap.AllocHeap.{Allocated, refused, allocated, alloc-Allocated}
use os_learning.KHeap.Live.{UsedAt-of_used}

-- What `kmalloc` and `kmalloc_aligned` do: what `alloc` does, with the lock free again behind it.
pub data Kmalloced (r : Range) (k : Kernel) (bs : List Block) (size : ℕ) (align : Bool)
    : Run (Kernel × ℕ) → Type 0 where
  exhausted : r.limit < r.end + 3 * align_to_page (size + 17) → Kmalloced r k bs size align panic
  given :
      (s : State) (ptr : ℕ)
      → ptr ≢ 0
      → Allocated r k.state bs size align (3 * align_to_page (size + 17)) (ok (s, ptr))
      → Kmalloced r k bs size align (ok (record { state = s; kheap_lock = locked_no }, ptr))

module _ (r : Range) (k : Kernel) (bs : List Block) (v : IsHeap r k.state bs)
    (free_lock : k.kheap_lock ≡ locked_no) where
  pub taken : yieldlock_lock 4 k.kheap_lock ≡ ok 1
  unfolding yieldlock_lock spin
  taken = rw free_lock

  module _ (size : ℕ) (align : Bool) (pos : 0 < size) where
    Kmalloced-of_Allocated :
        {res : Run (State × ℕ)}
        → Allocated r k.state bs size align (3 * align_to_page (size + 17)) res
        → alloc 4 k.state size align ≡ res
        → Kmalloced r k bs size align (kmalloc_locked 4 k size align)
    unfolding kmalloc_locked kmalloc_impl yieldlock_unlock
    Kmalloced-of_Allocated (refused over) e =
        let some_asked : (size == 0) ≡ false = ground arith in
        rw (taken, some_asked, e) (exhausted over)
    Kmalloced-of_Allocated
          (allocated s blocks end ptr n xs ys heap before more enough page kept near) e =
        let some_asked : (size == 0) ≡ false = ground arith in
        let place = UsedAt-of_used r.start blocks xs ys (ptr - 9) n more in
        let high : 0 < ptr = omega (arith, place.at, after-ge r.start place.pre, heap.placed.low) in
        let pointer : not (ptr == 0) ≡ true = ground arith in
        rw (taken, some_asked, e, pointer)
          (given s ptr (λ e0. omega (arith, e0))
            (allocated s blocks end ptr n xs ys heap before more enough page kept near))

    -- For a request of at least one byte, a free lock, a well-formed heap whose limit lies below 2
    -- ^ 32 by more than the request and two pages, and an index with room for two more holes,
    -- `kmalloc` and `kmalloc_aligned` do what `alloc` promises, with a pointer that is not NULL and
    -- the lock free again; or they panic, and then the limit lies less than three times the rounded
    -- growth above the heap's end.
    pub kmalloc_locked-Kmalloced :
        r.limit + size + 8192 < 2 ^ 32
        → k.state.heap.index.size + 1 < r.max_size
        → Kmalloced r k bs size align (kmalloc_locked 4 k size align)
    kmalloc_locked-Kmalloced low room =
        Kmalloced-of_Allocated (alloc-Allocated r k.state bs size align v pos low room) refl

-- ===== src/KHeap/Users.antt =====
-- `kmalloc`, `kmalloc_aligned` and `kfree` by the list of the pointers that are live.
use os_learning.Base.{
  ℕ, ◌+◌, ◌*◌, ◌^◌, ◌≤◌, ◌<◌, ◌≡◌, refl, arith, ◌==◌, false, List, ◌∷◌, ◌++◌, length, Bool,
}
use os_learning.Memory.{Run, ok}
use os_learning.OrderedArray.Insert.{count}
use os_learning.Sync.Locks.{locked_no, yieldlock_unlock}
use os_learning.KHeap.{State, align_to_page}
use os_learning.KHeap.Api.{Kernel, kmalloc_locked, kfree}
use os_learning.KHeap.Invariant.{Range}
use os_learning.KHeap.Layout.{count-append}
use os_learning.KHeap.Kernel.{Kmalloced, exhausted, given, kmalloc_locked-Kmalloced, taken}
use os_learning.KHeap.Session.{IsSound}
use os_learning.KHeap.Room.{IsSound-room}
use os_learning.KHeap.Sound.{IsSound-allocates, IsSound-frees, live_at, free_live}

module _ (r : Range) (k : Kernel) (free_lock : k.kheap_lock ≡ locked_no) where
  -- What a call leaves where the heap may grow far enough: one more pointer, the lock free.
  pub record Served (live : List ℕ) (end : ℕ) (most : ℕ) (res : Run (Kernel × ℕ)) : Type 0 where
    pub state : State
    pub ptr : ℕ
    pub result : res ≡ ok (record { state = state; kheap_lock = locked_no }, ptr)
    pub sound : IsSound r state (ptr ∷ live)
    pub near : sound.end ≤ end + most

  pub kmalloc_locked-Served :
      (live : List ℕ) (size : ℕ) (align : Bool) (v : IsSound r k.state live)
      → 0 < size
      → r.limit + size + 8192 < 2 ^ 32
      → length live + 2 < r.max_size
      → v.end + 3 * align_to_page (size + 17) ≤ r.limit
      → Served live v.end (3 * align_to_page (size + 17)) (kmalloc_locked 4 k size align)
  kmalloc_locked-Served live size align v pos low room near = of_Kmalloced (
      kmalloc_locked-Kmalloced (record r { end = v.end }) k v.blocks v.heap free_lock size align pos
        low (omega (arith, IsSound-room r k.state live v)))
    where
      of_Kmalloced :
          {res : Run (Kernel × ℕ)}
          → Kmalloced (record r { end = v.end }) k v.blocks size align res
          → Served live v.end (3 * align_to_page (size + 17)) res
      of_Kmalloced (exhausted over) = absurd (omega (arith, over))
      of_Kmalloced (given s ptr some_ptr a) =
          let (w, le) =
            IsSound-allocates r k.state s live size ptr (3 * align_to_page (size + 17)) align v a
              refl in
          record { state = s; ptr = ptr; result = refl; sound = w; near = le }

  pub kfree-IsSound :
      (xs ys : List ℕ) (ptr : ℕ) (v : IsSound r k.state (xs ++ ptr ∷ ys))
      → length (xs ++ ptr ∷ ys) + 1 < r.max_size
      → (s : State) × (kfree 4 k ptr ≡ ok (record { state = s; kheap_lock = locked_no }))
        × (w : IsSound r s (xs ++ ys)) × (w.end ≡ v.end)
  unfolding kfree yieldlock_unlock count
  kfree-IsSound xs ys ptr v room =
      let there : 0 < count ptr (xs ++ ptr ∷ ys) = ground (arith, count-append ptr xs (ptr ∷ ys)) in
      let l = live_at r k.state (xs ++ ptr ∷ ys) v ptr there in
      let few : k.state.heap.index.size < r.max_size =
        omega (arith, IsSound-room r k.state (xs ++ ptr ∷ ys) v) in
      let f = free_live r k.state (xs ++ ptr ∷ ys) v ptr l few in
      let pointer : (ptr == 0) ≡ false = ground (arith, l.at) in
      let (w, same) = IsSound-frees r k.state f.state xs ys ptr v few f.result in
      (
        f.state,
        rw (pointer, taken (record r { end = v.end }) k v.blocks v.heap free_lock, f.result),
        w,
        same,
      )

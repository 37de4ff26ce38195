-- ===== src/KHeap/Test/Passed.antt =====
-- `kheap_test` runs through.
use os_learning.Base.{
  ℕ, ◌+◌, ◌^◌, ◌≤◌, ◌<◌, ◌≡◌, refl, ap, sym, subst, arith, true, false, List, [], ◌∷◌, length,
}
use os_learning.Memory.{Run, ok, ◌>>=◌}
use os_learning.Sync.Locks.{locked_no}
use os_learning.KHeap.Api.{Kernel, kmalloc, kmalloc_aligned}
use os_learning.KHeap.Invariant.{Range, IsHeap, hole_of}
use os_learning.KHeap.Sound.{IsSound-begun}
use os_learning.KHeap.Room.{IsSound-validate}
use os_learning.KHeap.Test.{store, kheap_test_alloc, kheap_test_free, kheap_test}
use os_learning.KHeap.Test.Steps.{Steady, malloc-then, free-then, stored}

-- What the test leaves: five pointers that nothing frees.
pub record Tested (r : Range) (res : Run Kernel) : Type 0 where
  pub kernel : Kernel
  pub live : List ℕ
  pub result : res ≡ ok kernel
  pub five : length live ≡ 5
  pub steady : Steady r live 8150000 kernel

module _ (r : Range) (below : r.limit + 2629566 < 2 ^ 32) (growth : r.end + 8150000 ≤ r.limit)
    (index : 16 < r.max_size) where
  -- After the first half: the five pointers, the last first.
  record Five (res : Run (Kernel × ℕ × ℕ × ℕ × ℕ × ℕ)) : Type 0 where
    kernel : Kernel
    ptr : ℕ
    ptr1 : ℕ
    ptr2 : ℕ
    ptr3 : ℕ
    ptr4 : ℕ
    result : res ≡ ok (kernel, ptr, ptr1, ptr2, ptr3, ptr4)
    steady : Steady r (ptr4 ∷ ptr3 ∷ ptr ∷ ptr2 ∷ ptr1 ∷ []) 222231 kernel

  kheap_test_alloc-Five : (k : Kernel) → Steady r [] 0 k → Five (kheap_test_alloc k)
  unfolding kheap_test_alloc kmalloc kmalloc_aligned
  kheap_test_alloc-Five k0 h0 =
      malloc-then r below growth index Five _ 32 false h0 (omega arith) (omega arith) (omega arith)
        (omega arith)
        (λ k1 old h1.
          malloc-then r below growth index Five _ 200 false (stored r below growth index old 100 h1)
            (omega arith) (omega arith) (omega arith) (omega arith)
            (λ k2 ptr1 h2.
              malloc-then r below growth index Five _ 8192 true
                (stored r below growth index ptr1 101 h2) (omega arith) (omega arith) (omega arith)
                (omega arith)
                (λ k3 ptr2 h3.
                  free-then r below growth index Five _ (ptr2 ∷ ptr1 ∷ []) [] old
                    (stored r below growth index ptr2 200 h3) (omega arith)
                    (λ k4 h4.
                      malloc-then r below growth index Five _ 14 false h4 (omega arith)
                        (omega arith) (omega arith) (omega arith)
                        (λ k5 ptr h5.
                          malloc-then r below growth index Five _ 1 false
                            (stored r below growth index ptr 100 h5) (omega arith) (omega arith)
                            (omega arith) (omega arith)
                            (λ k6 ptr3 h6.
                              malloc-then r below growth index Five _ 40960 true
                                (stored r below growth index ptr3 5 h6) (omega arith) (omega arith)
                                (omega arith) (omega arith)
                                (λ k7 ptr4 h7. record {
                                  kernel = store k7 ptr4 200;
                                  ptr = ptr;
                                  ptr1 = ptr1;
                                  ptr2 = ptr2;
                                  ptr3 = ptr3;
                                  ptr4 = ptr4;
                                  result = refl;
                                  steady = stored r below growth index ptr4 200 h7;
                                })))))))

  second_half :
      (fuel ptr ptr1 ptr2 ptr3 ptr4 : ℕ) (k : Kernel)
      → 12 ≤ fuel
      → Steady r (ptr4 ∷ ptr3 ∷ ptr ∷ ptr2 ∷ ptr1 ∷ []) 222231 k
      → Tested r (kheap_test_free fuel k ptr ptr1 ptr2 ptr3 ptr4)
  unfolding kheap_test_free kmalloc
  second_half fuel ptr ptr1 ptr2 ptr3 ptr4 k0 enough h0 =
      free-then r below growth index (Tested r) _ (ptr4 ∷ ptr3 ∷ []) (ptr2 ∷ ptr1 ∷ []) ptr h0
        (omega arith)
        (λ k1 h1.
          free-then r below growth index (Tested r) _ (ptr4 ∷ ptr3 ∷ ptr2 ∷ []) [] ptr1 h1
            (omega arith)
            (λ k2 h2.
              free-then r below growth index (Tested r) _ (ptr4 ∷ ptr3 ∷ []) [] ptr2 h2
                (omega arith)
                (λ k3 h3.
                  free-then r below growth index (Tested r) _ (ptr4 ∷ []) [] ptr3 h3 (omega arith)
                    (λ k4 h4.
                      free-then r below growth index (Tested r) _ [] [] ptr4 h4 (omega arith)
                        (λ k5 h5.
                          malloc-then r below growth index (Tested r) _ 32 false h5 (omega arith)
                            (omega arith) (omega arith) (omega arith)
                            (λ k6 p6 h6.
                              malloc-then r below growth index (Tested r) _ 2621374 false h6
                                (omega arith) (omega arith) (omega arith) (omega arith)
                                (λ k7 p7 h7.
                                  malloc-then r below growth index (Tested r) _ 2 false h7
                                    (omega arith) (omega arith) (omega arith) (omega arith)
                                    (λ k8 p8 h8.
                                      malloc-then r below growth index (Tested r) _ 1 false h8
                                        (omega arith) (omega arith) (omega arith) (omega arith)
                                        (λ k9 p9 h9.
                                          malloc-then r below growth index (Tested r) _ 10 false h9
                                            (omega arith) (omega arith) (omega arith) (omega arith)
                                            (λ k10 p10 h10. record {
                                              kernel = k10;
                                              live = p10 ∷ p9 ∷ p8 ∷ p7 ∷ p6 ∷ [];
                                              result =
                                                  ap (λ m. m >>= λ live. ok k10)
                                                    (IsSound-validate r k10.state
                                                      (p10 ∷ p9 ∷ p8 ∷ p7 ∷ p6 ∷ []) fuel h10.sound
                                                      (omega arith));
                                              five = refl;
                                              steady = record {
                                                sound = h10.sound;
                                                lock = h10.lock;
                                                near = omega (arith, h10.near);
                                              };
                                            }))))))))))

  -- On a well-formed heap of one hole with a free lock, whose limit leaves room for 8150000 bytes
  -- more and lies below 2 ^ 32 by more than 2629566, and whose index has room for more than 16
  -- holes: `kheap_test`, with fuel for 12 rounds of the walk over the blocks, runs to its end
  -- without a panic, and leaves a well-formed heap with five live pointers and a free lock.
  pub kheap_test-Tested :
      (fuel n : ℕ) (kernel : Kernel)
      → 12 ≤ fuel
      → IsHeap r kernel.state (hole_of n ∷ [])
      → kernel.kheap_lock ≡ locked_no
      → Tested r (kheap_test fuel kernel)
  unfolding kheap_test
  kheap_test-Tested fuel n kernel enough v lock =
      let (w, same) = IsSound-begun r kernel.state n v in
      let half =
        kheap_test_alloc-Five kernel
          (record { sound = w; lock = lock; near = omega (arith, same) }) in
      subst
        (λ m. Tested r (
          m >>= λ (k, ptr, ptr1, ptr2, ptr3, ptr4). kheap_test_free fuel k ptr ptr1 ptr2 ptr3 ptr4))
        (sym half.result)
        (second_half fuel half.ptr half.ptr1 half.ptr2 half.ptr3 half.ptr4 half.kernel enough
          half.steady)

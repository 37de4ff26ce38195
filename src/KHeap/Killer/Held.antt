-- ===== src/KHeap/Killer/Held.antt =====
-- One round of a loop of the stress test.
use os_learning.Base.{
  ==_iff, ℕ, suc, ◌+◌, ◌-◌, ◌*◌, ◌^◌, ◌≤◌, ◌<◌, ◌≡◌, refl, sym, ap, ◌∙◌, arith, true, false, List,
  ◌∷◌, ◌++◌, length, Bool, Bool-cases, inl, inr, length-append, update, if◌then◌else◌,
}
use os_learning.Memory.{ok}
use os_learning.OrderedArray.Insert.{count}
use os_learning.Random.{rand_range}
use os_learning.Random.Range.{rand_range-bounds}
use os_learning.Sync.Locks.{locked_no}
use os_learning.KHeap.{State, align_to_page}
use os_learning.KHeap.Grow.{align_to_page_lem}
use os_learning.KHeap.Api.{Kernel, kmalloc, kmalloc_aligned, kmalloc_locked}
use os_learning.KHeap.Invariant.{Range}
use os_learning.KHeap.Layout.{count-append}
use os_learning.KHeap.Session.{IsSound}
use os_learning.KHeap.Room.{IsSound-validate}
use os_learning.KHeap.Users.{kmalloc_locked-Served, kfree-IsSound}
use os_learning.KHeap.Killer.{Killer, alloc_step, free_step}
use os_learning.KHeap.Killer.Slots.{live_of, live_of-split, live_of-more}

-- The list may be any that has the same pointers.
IsSound-same :
    (r : Range) (s : State) (live live' : List ℕ) (v : IsSound r s live)
    → ((x : ℕ) → count x live' ≡ count x live)
    → length live' ≡ length live
    → (w : IsSound r s live') × (w.end ≡ v.end)
IsSound-same r s live live' v same number = (
  record {
    end = v.end;
    blocks = v.blocks;
    heap = v.heap;
    same = λ x. same x ∙ v.same x;
    number = number ∙ v.number;
  },
  refl,
)

-- What the loops rely on: the heap is sound with the pointers of the slots that hold a block, the
-- lock is free, and the end has moved by no more than three pages for each call.
pub record Held (r : Range) (holding : ℕ → Bool) (number calls : ℕ) (k : Killer) : Type 0 where
  pub sound : IsSound r k.kernel.state (live_of k.ptrs holding 400)
  pub lock : k.kernel.kheap_lock ≡ locked_no
  pub counted : length (live_of k.ptrs holding 400) ≡ number
  pub near : sound.end ≤ r.end + 12288 * calls

-- Room for the whole test.
pub record IsRoomy (r : Range) : Type 0 where
  pub below : r.limit + 9192 < 2 ^ 32
  pub growth : r.end + 12288 * 2000 ≤ r.limit
  pub index : 402 < r.max_size

module _ (r : Range) (roomy : IsRoomy r) (fuel : ℕ) (enough : 802 ≤ fuel) where
  pub free_step-Held :
      (slot : ℕ → ℕ) (first i calls number : ℕ) (holding : ℕ → Bool) (k : Killer)
      → Held r holding number calls k
      → number ≡ first - i
      → i < first
      → first ≤ 400
      → slot i < 400
      → holding (slot i) ≡ true
      → (k' : Killer) × (free_step fuel slot first i k ≡ ok k')
        × Held r (update holding (slot i) false) (number - 1) calls k'
  unfolding free_step
  free_step-Held slot first i calls number holding k h left lt most within there =
      let (xs, ys, full, less) = live_of-split k.ptrs holding (slot i) 400 within there in
      let v : (v : IsSound r k.kernel.state (xs ++ k.ptrs (slot i) ∷ ys)) × (v.end ≡ h.sound.end) =
        IsSound-same r k.kernel.state (live_of k.ptrs holding 400) (xs ++ k.ptrs (slot i) ∷ ys)
          h.sound (λ x. ap (count x) (sym full)) (ap (length {0}) (sym full)) in
      let before : length (xs ++ k.ptrs (slot i) ∷ ys) ≡ number =
        ap (length {0}) (sym full) ∙ h.counted in
      let (s, freed, w, end) =
        kfree-IsSound r k.kernel h.lock xs ys (k.ptrs (slot i)) v.0
          (omega (arith, before, roomy.index)) in
      let (u, end') =
        IsSound-same r s (xs ++ ys) (live_of k.ptrs (update holding (slot i) false) 400) w
          (λ x. ap (count x) less) (ap (length {0}) less) in
      let after : length (live_of k.ptrs (update holding (slot i) false) 400) ≡ first - (i + 1) =
        omega (
          arith,
          ap (length {0}) less,
          before,
          length-append {0} xs ys,
          length-append {0} xs (k.ptrs (slot i) ∷ ys),
        ) in
      let valid =
        IsSound-validate r s (live_of k.ptrs (update holding (slot i) false) 400) fuel u
          (omega (arith, after)) in
      let equal = (==_iff (first - (i + 1)) (first - (i + 1))).1 refl in
      (
        record k { kernel = record { state = s; kheap_lock = locked_no } },
        rw (freed, valid, after, equal),
        record {
          sound = u;
          lock = refl;
          counted = omega (arith, after, left);
          near = omega (arith, end, end', v.1, h.near);
        },
      )

  -- The pages that one call may add.
  growth-le : (size : ℕ) → size ≤ 1000 → 3 * align_to_page (size + 17) ≤ 12288
  growth-le size le = elim (align_to_page_lem (size + 17) (omega arith)) [
    | inl (_, page, lo, hi) ↦ omega (arith, page, hi)
    | inr (over, _) ↦ absurd (omega (arith, over))
  ]

  -- Both calls are one call.
  asked :
      (k : Kernel) (size : ℕ) (align : Bool)
      → (if align then kmalloc_aligned 4 k size else kmalloc 4 k size)
        ≡ kmalloc_locked 4 k size align
  unfolding kmalloc kmalloc_aligned
  asked k size align = elim (Bool-cases align) [ inl e ↦ rw e refl | inr e ↦ rw e refl ]

  pub alloc_step-Held :
      (aligned : ℕ → Bool) (base first : ℕ) (ticks : ℕ → ℕ) (i calls number : ℕ)
      (holding : ℕ → Bool) (k : Killer)
      → Held r holding number calls k
      → number ≡ first + i
      → number < 400
      → calls < 2000
      → i + base < 400
      → holding (i + base) ≡ false
      → (k' : Killer) × (alloc_step fuel aligned base first ticks i k ≡ ok k')
        × Held r (update holding (i + base) true) (suc number) (suc calls) k'
  unfolding alloc_step count
  alloc_step-Held aligned base first ticks i calls number holding k h so_far most some_left within
        empty =
      let (seed, size) = rand_range (ticks (i + base)) k.seed 1 1000 in
      let bounds = rand_range-bounds (ticks (i + base)) k.seed 1 1000 (omega arith) in
      let served =
        kmalloc_locked-Served r k.kernel h.lock (live_of k.ptrs holding 400) size (aligned i)
          h.sound bounds.0 (omega (arith, bounds.1, roomy.below))
          (omega (arith, h.counted, roomy.index))
          (omega (arith, h.near, roomy.growth, growth-le size bounds.1)) in
      let s = served.state in
      let p = served.ptr in
      let (xs, ys, more, old) = live_of-more k.ptrs holding (i + base) 400 p within empty in
      let holding' = update holding (i + base) true in
      let ptrs' = update k.ptrs (i + base) p in
      let number' : length (live_of ptrs' holding' 400)
          ≡ suc (length (live_of k.ptrs holding 400)) =
        omega (
          arith,
          ap (length {0}) more,
          ap (length {0}) old,
          length-append {0} xs ys,
          length-append {0} xs (p ∷ ys),
        ) in
      let (u, same) =
        IsSound-same r s (p ∷ live_of k.ptrs holding 400) (live_of ptrs' holding' 400) served.sound
          (λ x. omega (
            arith,
            ap (count x) more,
            ap (count x) old,
            count-append x xs ys,
            count-append x xs (p ∷ ys),
          ))
          number' in
      let after : length (live_of ptrs' holding' 400) ≡ first + (i + 1) =
        omega (arith, number', h.counted, so_far) in
      let valid =
        IsSound-validate r s (live_of ptrs' holding' 400) fuel u
          (omega (arith, number', h.counted)) in
      let equal = (==_iff (first + (i + 1)) (first + (i + 1))).1 refl in
      (
        record { kernel = record { state = s; kheap_lock = locked_no }; seed = seed; ptrs = ptrs' },
        rw (asked k.kernel size (aligned i), served.result, valid, after, equal),
        record {
          sound = u;
          lock = refl;
          counted = omega (arith, after, so_far);
          near = omega (arith, same, served.near, h.near, growth-le size bounds.1);
        },
      )

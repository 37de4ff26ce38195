-- ===== src/KHeap/Test/Steps.antt =====
-- The steps of `kheap_test`, each by its continuation.
use os_learning.Base.{
  ℕ, ◌+◌, ◌-◌, ◌*◌, ◌^◌, ◌≤◌, ◌<◌, ◌≡◌, refl, ap, ◌∙◌, sym, subst, arith, Bool, List, ◌∷◌, ◌++◌,
  length, inl, inr,
}
use os_learning.Memory.{Run, ◌>>=◌}
use os_learning.OrderedArray.Insert.{count}
use os_learning.Sync.Locks.{locked_no}
use os_learning.KHeap.{State, align_to_page, size_of}
use os_learning.KHeap.Grow.{align_to_page_lem}
use os_learning.KHeap.Api.{Kernel, kmalloc_locked, kfree}
use os_learning.KHeap.Invariant.{Range, in_use}
use os_learning.KHeap.Layout.{Layout, Layout-split, after}
use os_learning.KHeap.Live.{UsedAt-of_used}
use os_learning.KHeap.Session.{IsSound}
use os_learning.KHeap.Sound.{IsSound-writes, live_at}
use os_learning.KHeap.Users.{kmalloc_locked-Served, kfree-IsSound}
use os_learning.KHeap.Test.{store}

-- Between two steps: the pointers that are live, and how far the end may have moved.
pub record Steady (r : Range) (live : List ℕ) (moved : ℕ) (k : Kernel) : Type 0 where
  pub sound : IsSound r k.state live
  pub lock : k.kheap_lock ≡ locked_no
  pub near : sound.end ≤ r.end + moved

-- A live pointer's block has at least one byte.
live-pos :
    (r : Range) (s : State) (live : List ℕ) (v : IsSound r s live) (ptr : ℕ)
    → 0 < count ptr live
    → 0 < size_of s.mem (ptr - 9)
live-pos r s live v ptr there =
    let l = live_at r s live v ptr there in
    let place = UsedAt-of_used r.start v.blocks l.xs l.ys l.a l.n l.split in
    let parts =
      Layout-split s.mem r.start place.pre (in_use l.n ∷ place.post) v.end
        (subst (λ b. Layout s.mem r.start b v.end) place.split v.heap.layout) in
    let start : after r.start place.pre ≡ ptr - 9 = omega (arith, place.at, l.at) in
    let size : size_of s.mem (ptr - 9) ≡ l.n = ap (size_of s.mem) (sym start) ∙ parts.1.0.sized in
    omega (arith, size, parts.1.1)

store-Steady :
    (r : Range) (live : List ℕ) (moved : ℕ) (k : Kernel) (ptr value : ℕ)
    → Steady r live moved k
    → 0 < count ptr live
    → Steady r live moved (store k ptr value)
store-Steady r live moved k ptr value h there =
    let (w, same) =
      IsSound-writes r k.state live ptr ptr value h.sound there (omega arith)
        (omega (arith, live-pos r k.state live h.sound ptr there)) in
    record { sound = w; lock = h.lock; near = omega (arith, same, h.near) }

module _ (r : Range) (below : r.limit + 2629566 < 2 ^ 32) (growth : r.end + 8150000 ≤ r.limit)
    (index : 16 < r.max_size) where
  -- A call that allocates, and what follows it.
  pub malloc-then :
      {A : Type 0} (Q : Run A → Type 0) (f : Kernel × ℕ → Run A) (size : ℕ) (align : Bool)
      {live : List ℕ} {moved : ℕ} {k : Kernel}
      → Steady r live moved k
      → 0 < size
      → size ≤ 2621374
      → length live ≤ 5
      → moved + 3 * (size + 4113) ≤ 8150000
      → ((k' : Kernel) (ptr : ℕ)
          → Steady r (ptr ∷ live) (moved + 3 * (size + 4113)) k'
          → Q (f (k', ptr)))
      → Q (kmalloc_locked 4 k size align >>= f)
  malloc-then Q f size align {live} {moved} {k} h pos small few room next =
      let step : align_to_page (size + 17) ≤ size + 4113 =
        elim (align_to_page_lem (size + 17) (omega arith)) [
          | inl (_, page, lo, hi) ↦ omega (arith, page, hi)
          | inr (over, _) ↦ absurd (omega (arith, over))
        ] in
      let s =
        kmalloc_locked-Served r k h.lock live size align h.sound pos (omega arith) (omega arith)
          (omega (arith, h.near)) in
      subst (λ m. Q (m >>= f)) (sym s.result)
        (next (record { state = s.state; kheap_lock = locked_no }) s.ptr
          (record { sound = s.sound; lock = refl; near = omega (arith, s.near, h.near) }))

  -- A call that frees, and what follows it.
  pub free-then :
      {A : Type 0} (Q : Run A → Type 0) (f : Kernel → Run A) (xs ys : List ℕ) (ptr : ℕ) {moved : ℕ}
      {k : Kernel}
      → Steady r (xs ++ ptr ∷ ys) moved k
      → length (xs ++ ptr ∷ ys) ≤ 5
      → ((k' : Kernel) → Steady r (xs ++ ys) moved k' → Q (f k'))
      → Q (kfree 4 k ptr >>= f)
  free-then Q f xs ys ptr {moved} {k} h few next =
      let (s, freed, w, end) = kfree-IsSound r k h.lock xs ys ptr h.sound (omega arith) in
      subst (λ m. Q (m >>= f)) (sym freed)
        (next (record { state = s; kheap_lock = locked_no })
          (record { sound = w; lock = refl; near = omega (arith, end, h.near) }))

  -- A write to the block that was given last.
  pub stored :
      {live : List ℕ} {moved : ℕ} {k : Kernel} (ptr value : ℕ)
      → Steady r (ptr ∷ live) moved k
      → Steady r (ptr ∷ live) moved (store k ptr value)
  unfolding count
  stored {live} {moved} {k} ptr value h =
      store-Steady r (ptr ∷ live) moved k ptr value h (ground arith)

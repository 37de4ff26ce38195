-- ===== src/KHeap/Killer/Survived.antt =====
-- The whole stress test.
use os_learning.Base.{ℕ, zero, suc, ◌+◌, ◌*◌, ◌≤◌, ◌≡◌, refl, subst, arith, [], ◌∷◌, ◌==◌}
use os_learning.Memory.{Run, ok, ◌>>=◌, ◌>>◌, assert}
use os_learning.Random.{rand_seed}
use os_learning.Sync.Locks.{locked_no}
use os_learning.KHeap.Api.{Kernel, validate}
use os_learning.KHeap.Invariant.{Range, IsHeap, hole_of}
use os_learning.KHeap.Sound.{IsSound-begun}
use os_learning.KHeap.Room.{IsSound-validate, IsSound-one_hole}
use os_learning.KHeap.Killer.{Killer, Round, kill_rounds, kheap_killer}
use os_learning.KHeap.Killer.Held.{IsRoomy}
use os_learning.KHeap.Killer.Rounds.{Idle, bind-ok, kill_round-Idle}

-- What the test leaves.
pub record Survived (r : Range) (res : Run (Kernel × ℕ)) : Type 0 where
  pub kernel : Kernel
  pub seed : ℕ
  pub end : ℕ
  pub size : ℕ
  pub result : res ≡ ok (kernel, seed)
  pub heap : IsHeap (record r { end = end }) kernel.state (hole_of size ∷ [])
  pub lock : kernel.kheap_lock ≡ locked_no

module _ (r : Range) (roomy : IsRoomy r) (fuel : ℕ) (enough : 802 ≤ fuel) where
  kill_rounds-Idle :
      (rounds : ℕ → Round) (n i calls : ℕ) (k : Killer)
      → Idle r calls k.kernel
      → calls + 400 * n ≤ 2000
      → (k' : Killer) × (kill_rounds fuel rounds i n k ≡ ok k') × Idle r (calls + 400 * n) k'.kernel
  unfolding kill_rounds
  kill_rounds-Idle rounds zero i calls k h few =
      (k, refl, subst (λ c. Idle r c k.kernel) (omega arith) h)
  kill_rounds-Idle rounds (suc n) i calls k h few =
      let (k', e, h') =
        kill_round-Idle r roomy fuel enough (rounds i).ticks calls (omega arith) (rounds i).garbage
          k h in
      let (last, e', h'') =
        kill_rounds-Idle rounds n (suc i) (calls + 200 + 200) k' h' (omega arith) in
      (
        last,
        bind-ok (kill_rounds fuel rounds (suc i) n) e e',
        subst (λ c. Idle r c last.kernel) (omega arith) h'',
      )

  -- On a well-formed heap of one hole with a free lock, whose limit leaves room for 2000 times
  -- three pages and lies below 2 ^ 32 by more than 9192 bytes, and whose index has room for more
  -- than 402 holes: whatever the clock says and the stack holds, `kheap_killer`, with fuel for 802
  -- rounds of a walk over the blocks, returns without a panic, so none of its assertions fails, and
  -- leaves a well-formed heap of one hole with a free lock.
  pub kheap_killer-Survived :
      (rounds : ℕ → Round) (kernel : Kernel) (seed n : ℕ)
      → IsHeap r kernel.state (hole_of n ∷ [])
      → kernel.kheap_lock ≡ locked_no
      → Survived r (kheap_killer fuel rounds kernel seed)
  unfolding kheap_killer
  kheap_killer-Survived rounds kernel seed n v lock =
      let start : Killer = record { kernel = kernel; seed = rand_seed 5 seed; ptrs = λ i. 0 } in
      let begun = IsSound-begun r kernel.state n v in
      let (done, e, idle) =
        kill_rounds-Idle rounds 5 0 0 start
          (record { sound = begun.0; lock = lock; near = omega (arith, begun.1) }) (omega arith) in
      let valid = IsSound-validate r done.kernel.state [] fuel idle.sound (omega arith) in
      let (size, heap) = IsSound-one_hole r done.kernel.state idle.sound in
      record {
        kernel = done.kernel;
        seed = done.seed;
        end = idle.sound.end;
        size = size;
        result =
            bind-ok
              (λ done'. validate fuel done'.kernel.state >>= λ live.
                assert (live == 0) >> ok (done'.kernel, done'.seed))
              e (rw valid refl);
        heap = heap;
        lock = idle.lock;
      }

-- ===== src/KHeap/Killer.antt =====
-- `kheap_killer`, the stress test that `main` runs, without its output.
pub mod Slots
pub mod Held
pub mod Passes
pub mod Rounds
pub mod Survived
use os_learning.Base.{ℕ, zero, suc, ◌+◌, ◌-◌, ◌*◌, ◌/◌, ◌%◌, Bool, leb, ◌==◌, if◌then◌else◌, update}
use os_learning.Memory.{Run, ok, ◌>>=◌, ◌>>◌, assert}
use os_learning.Random.{rand_seed, rand_seed_with_time, rand_range}
use os_learning.KHeap.Api.{Kernel, kmalloc, kmalloc_aligned, kfree, validate}

-- The heap, the generator's seed, and the array of pointers, `uint8_t *ptrs[size * 2]`.
pub record Killer : Type 0 where
  pub kernel : Kernel
  pub seed : ℕ
  pub ptrs : ℕ → ℕ

-- What a round finds: what `getTick` returns at its draws, and the array's contents on the stack.
pub record Round : Type 0 where
  pub ticks : ℕ → ℕ
  pub garbage : ℕ → ℕ

abbrev pub stress_size : ℕ
stress_size = 200

-- One round of a loop that allocates: slot `i + base` gets a block, `first + (i + 1)` are live.
unfoldable pub alloc_step : ℕ → (ℕ → Bool) → ℕ → ℕ → (ℕ → ℕ) → ℕ → Killer → Run Killer
alloc_step fuel aligned base first ticks i k = do
  let (seed, random) = rand_range (ticks (i + base)) k.seed 1 1000
  (kernel, ptr) ←
      (if aligned i then kmalloc_aligned 4 k.kernel random else kmalloc 4 k.kernel random)
  live ← validate fuel kernel.state
  assert (live == first + (i + 1))
  ok (record { kernel = kernel; seed = seed; ptrs = update k.ptrs (i + base) ptr })

-- One round of a loop that frees: the block of slot `slot i`, and `first - (i + 1)` are left.
unfoldable pub free_step : ℕ → (ℕ → ℕ) → ℕ → ℕ → Killer → Run Killer
free_step fuel slot first i k = do
  kernel ← kfree 4 k.kernel (k.ptrs (slot i))
  live ← validate fuel kernel.state
  assert (live == first - (i + 1))
  ok (record k { kernel = kernel })

-- `for (int i = 0; i < n; i++)`, from the round `i` on.
unfoldable pub repeat : (ℕ → Killer → Run Killer) → ℕ → ℕ → Killer → Run Killer
repeat body i zero k = ok k
repeat body i (suc n) k = body i k >>= repeat body (suc i) n

unfoldable pub kill_round : ℕ → Round → Killer → Run Killer
kill_round fuel r k = do
  full ←
      repeat (alloc_step fuel (λ i. i % 5 == 1) 0 0 r.ticks) 0 stress_size
        (record k { ptrs = r.garbage })
  half ← repeat (free_step fuel (λ i. i * 2) stress_size) 0 (stress_size / 2) full
  again ←
      repeat (alloc_step fuel (λ i. leb 2 (i % 5)) stress_size (stress_size / 2) r.ticks) 0
        stress_size half
  odd ←
      repeat (free_step fuel (λ i. stress_size + i * 2 + 1) (stress_size / 2 * 3)) 0
        (stress_size / 2) again
  even ← repeat (free_step fuel (λ i. i * 2 + 1) stress_size) 0 (stress_size / 2) odd
  last ←
      repeat (free_step fuel (λ i. stress_size + i * 2) (stress_size / 2)) 0 (stress_size / 2) even
  live ← validate fuel last.kernel.state
  assert (live == 0)
  ok (record last { seed = rand_seed_with_time (r.ticks (2 * stress_size)) last.seed })

unfoldable pub kill_rounds : ℕ → (ℕ → Round) → ℕ → ℕ → Killer → Run Killer
kill_rounds fuel rounds i zero k = ok k
kill_rounds fuel rounds i (suc n) k =
    kill_round fuel (rounds i) k >>= kill_rounds fuel rounds (suc i) n

-- `fuel` is for the walks over the blocks.
unfoldable pub kheap_killer : ℕ → (ℕ → Round) → Kernel → ℕ → Run (Kernel × ℕ)
kheap_killer fuel rounds kernel seed = do
  done ←
      kill_rounds fuel rounds 0 5
        (record { kernel = kernel; seed = rand_seed 5 seed; ptrs = λ i. 0 })
  live ← validate fuel done.kernel.state
  assert (live == 0)
  ok (done.kernel, done.seed)

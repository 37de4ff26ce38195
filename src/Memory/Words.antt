-- ===== src/Memory/Words.antt =====
-- Reading a word back, at its own address and beside it.
use os_learning.Base.{ℕ, ◌+◌, ◌/◌, ◌%◌, ◌^◌, ◌≤◌, ◌<◌, ◌≡◌, ◌⊎◌, arith}
use os_learning.Memory.{Mem, read32, write32}

-- Each byte after a word is written.
pub write32-at : (m : Mem) (a v x : ℕ) → (x < a) ⊎ (a + 4 ≤ x) → write32 m a v x ≡ m x
unfolding write32
write32-at m a v x h = ground arith

-- A 32-bit word that is written to memory is read back at its address.
pub read32-write32 : (m : Mem) (a v : ℕ) → v < 2 ^ 32 → read32 (write32 m a v) a ≡ v
unfolding read32 write32
read32-write32 m a v h =
    let b0 : write32 m a v a ≡ v % 256 = ground arith in
    let b1 : write32 m a v (a + 1) ≡ v / 256 % 256 = ground arith in
    let b2 : write32 m a v (a + 2) ≡ v / 65536 % 256 = ground arith in
    let b3 : write32 m a v (a + 3) ≡ v / 16777216 % 256 = ground arith in
    rw (b0, b1, b2, b3) (omega arith)

-- Memory that agrees on four bytes holds the same word there.
pub read32-eq :
    (m n : Mem) (a : ℕ) → ((x : ℕ) → a ≤ x → x < a + 4 → n x ≡ m x) → read32 n a ≡ read32 m a
unfolding read32
read32-eq m n a same = omega (
  arith,
  same a (omega arith) (omega arith),
  same (a + 1) (omega arith) (omega arith),
  same (a + 2) (omega arith) (omega arith),
  same (a + 3) (omega arith) (omega arith),
)

-- A word written elsewhere does not change it.
pub read32-write32_apart :
    (m : Mem) (a v b : ℕ) → (b + 4 ≤ a) ⊎ (a + 4 ≤ b) → read32 (write32 m a v) b ≡ read32 m b
read32-write32_apart m a v b apart =
    read32-eq m (write32 m a v) b (λ x lo hi. write32-at m a v x (ground arith))

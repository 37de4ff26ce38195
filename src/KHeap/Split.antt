-- ===== src/KHeap/Split.antt =====
-- The part of `alloc` that uses a block: it is marked as used, and what is left becomes a hole.
use os_learning.Base.{
  ℕ, ◌+◌, ◌-◌, ◌%◌, ◌^◌, ◌≤◌, ◌<◌, ◌≡◌, ◌∙◌, inl, inr, true, arith, leb, Bool-cases,
}
use os_learning.Memory.{Mem, sub32, Run, ok}
use os_learning.KHeap.{State, make_block, index_insert}
use os_learning.KHeap.Blocks.{IsBlock, IsBlock-eq, Untouched, Made, make_block-Made}
use os_learning.KHeap.Alloc.{use_block}

-- What becomes of the block: it is used whole, or it is split into a used block of the size asked
-- for and a hole right behind it, in the index, that ends where the block ended.
pub data Used (s : State) (header block_size size : ℕ) : Run State → Type 0 where
  whole :
      (m' : Mem)
      → block_size ≤ size + 17
      → Made s.mem m' header block_size 0
      → Used s header block_size size (ok (record s { mem = m' }))
  split :
      (m' : Mem) (left : ℕ)
      → size + 17 + left ≡ block_size
      → 0 < left
      → IsBlock m' header size 0
      → IsBlock m' (header + 17 + size) left 1
      → ((x : ℕ) → Untouched header size x → Untouched (header + 17 + size) left x → m' x ≡ s.mem x)
      → Used s header block_size size
          (ok (record { mem = m'; heap = index_insert m' s.heap (header + 17 + size) }))

-- A block that is made, where the size is not zero.
pub make_block-pos :
    (m : Mem) (start size is_hole : ℕ)
    → start + size + 17 < 2 ^ 32
    → 0 < size
    → (m' : Mem) × (make_block m start size is_hole ≡ ok m') × Made m m' start size is_hole
make_block-pos m start size is_hole word pos = elim (make_block-Made m start size is_hole word) [
  | inl (none, _) ↦ absurd (omega arith)
  | inr (_, made) ↦ made
]

module _ (s : State) (header block_size size : ℕ) (word : header + block_size + 17 < 2 ^ 32)
    (pos : 0 < size) (room : size ≤ block_size) where
  IsBlock-kept :
      (m m' : Mem) (left : ℕ)
      → IsBlock m header size 0
      → Made m m' (header + 17 + size) left 1
      → IsBlock m' header size 0
  IsBlock-kept m m' left b made =
      IsBlock-eq m m' header size 0 (λ x t. made.others x (inl (omega arith))) b

  -- A block that ends below 2 ^ 32 and is large enough is used whole or split.
  pub use_block-Used : Used s header block_size size (use_block s header block_size size)
  unfolding use_block
  use_block-Used =
      let fits : leb size block_size ≡ true = ground arith in
      let remain : sub32 block_size size ≡ block_size - size = omega arith in
      rw (fits, remain)
        (elim (Bool-cases (leb (block_size - size) 17)) [
          | inl tight ↦
              let (m', e, made) = make_block-pos s.mem header block_size 0 word (omega arith) in
              rw (tight, e) (whole m' (ground arith) made)
          | inr loose ↦
              let (m, e, made) = make_block-pos s.mem header size 0 (omega arith) pos in
              let rest : (header + 17 + size) % 2 ^ 32 ≡ header + 17 + size = omega arith in
              let left : sub32 (block_size - size) 17 ≡ block_size - size - 17 = ground arith in
              let (m', e', made') =
                make_block-pos m (header + 17 + size) (block_size - size - 17) 1 (ground arith)
                  (ground arith) in
              rw (loose, e, rest, left, e')
                (split m' (block_size - size - 17) (ground arith) (ground arith)
                  (IsBlock-kept m m' (block_size - size - 17) made.block made') made'.block
                  (λ x u u'. made'.others x u' ∙ made.others x u))
        ])

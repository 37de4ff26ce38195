-- ===== src/KHeap/Take.antt =====
-- The part of `alloc` that takes the hole that was found.
use os_learning.Base.{
  ℕ, ◌+◌, ◌-◌, ◌^◌, ◌≤◌, ◌<◌, ◌≡◌, refl, ◌∙◌, subst, ◌⊎◌, inl, inr, Bool, true, arith, ltb, ◌==◌,
  Bool-cases,
}
use os_learning.OrderedArray
use os_learning.Memory.{Mem, sub32, Run, ok, ◌>>=◌}
use os_learning.KHeap.{State, index_insert, kheap_magic, magic_of}
use os_learning.KHeap.Blocks.{IsBlock, Made}
use os_learning.KHeap.Alloc.{cut_front, use_block, take_hole}
use os_learning.KHeap.Split.{Used, whole, split, make_block-pos, use_block-Used}
use os_learning.KHeap.Bounds.{Fits}

-- The bytes before and behind a block.
abbrev pub Outside : ℕ → ℕ → ℕ → Type 0
Outside header block_size x = (x < header) ⊎ (header + 17 + block_size ≤ x)

-- A used block at `header`, within the block that was there.
record Placed (s : State) (header block_size size : ℕ) (r : Run State) : Type 0 where
  state : State
  used : ℕ
  result : r ≡ ok state
  enough : size ≤ used
  tight : used ≤ size + 17
  within : used ≤ block_size
  block : IsBlock state.mem header used 0
  others : (x : ℕ) → Outside header block_size x → state.mem x ≡ s.mem x

Placed-of_Used :
    (s : State) (header block_size size : ℕ) {r : Run State}
    → size ≤ block_size
    → Used s header block_size size r
    → Placed s header block_size size r
Placed-of_Used s header block_size size room (whole m' tight made) = record {
  state = record s { mem = m' };
  used = block_size;
  result = refl;
  enough = room;
  tight = tight;
  within = omega arith;
  block = made.block;
  others = λ x out. made.others x (omega arith);
}
Placed-of_Used s header block_size size room (split m' left sum pos b rest others) = record {
  state = record { mem = m'; heap = index_insert m' s.heap (header + 17 + size) };
  used = size;
  result = refl;
  enough = omega arith;
  tight = omega arith;
  within = omega arith;
  block = b;
  others = λ x out. others x (omega arith) (omega arith);
}

module _ (t : State) (header hole_size alloc_pos : ℕ) (word : header + hole_size + 17 < 2 ^ 32)
    (front : header + 26 < alloc_pos) (inside : alloc_pos ≤ header + 9 + hole_size) where
  -- The space in front becomes a hole of its own, in the index.
  pub cut_front-Made :
      (m : Mem) × (cut_front t header hole_size alloc_pos
        ≡ ok (
          record { mem = m; heap = index_insert m t.heap header },
          alloc_pos - 9,
          hole_size - (alloc_pos - 9 - header),
        ))
      × Made t.mem m header (alloc_pos - 9 - header - 17) 1
  unfolding cut_front
  cut_front-Made =
      let (m, e, made) =
        make_block-pos t.mem header (alloc_pos - 9 - header - 17) 1 (omega arith) (omega arith) in
      let block_header : sub32 alloc_pos 9 ≡ alloc_pos - 9 = omega arith in
      let ahead : ltb header (alloc_pos - 9) ≡ true = ground arith in
      let cut : sub32 (alloc_pos - 9) header ≡ alloc_pos - 9 - header = omega arith in
      let big : ltb 17 (alloc_pos - 9 - header) ≡ true = ground arith in
      let hole : sub32 (alloc_pos - 9 - header) 17 ≡ alloc_pos - 9 - header - 17 = omega arith in
      let left : sub32 hole_size (alloc_pos - 9 - header) ≡ hole_size - (alloc_pos - 9 - header) =
        omega arith in
      (m, rw (block_header, ahead, cut, big, hole, e, left), made)

  -- Nothing outside the hole is written.
  cut_front-eq :
      (t' : State) × (cut_front t header hole_size alloc_pos
        ≡ ok (t', alloc_pos - 9, hole_size - (alloc_pos - 9 - header)))
      × ((x : ℕ) → Outside header hole_size x → t'.mem x ≡ t.mem x)
  cut_front-eq =
      let (m, e, made) = cut_front-Made in
      (
        record { mem = m; heap = index_insert m t.heap header },
        e,
        λ x out. made.others x (omega arith),
      )

-- What the caller gets: a used block around the position, within the hole, at most 17 bytes larger
-- than asked for, and no byte written outside the hole.
pub data Taken (s : State) (header hole_size size alloc_pos : ℕ) : Run (State × ℕ) → Type 0 where
  taken :
      (s' : State) (used : ℕ)
      → size ≤ used
      → used ≤ size + 17
      → alloc_pos + used ≤ header + 9 + hole_size
      → IsBlock s'.mem (alloc_pos - 9) used 0
      → ((x : ℕ) → Outside header hole_size x → s'.mem x ≡ s.mem x)
      → Taken s header hole_size size alloc_pos (ok (s', alloc_pos))

module _ (s : State) (size iterator alloc_pos hole_size : ℕ) (page_align : Bool)
    (pos : 0 < size) where
  abbrev header : ℕ
  header = OrderedArray.get s.heap.index iterator

  -- The state once the hole has left the index.
  abbrev unindexed : State
  unindexed = record s {
    heap = record (s.heap) { index = (OrderedArray.remove s.heap.index iterator).0 };
  }

  Taken-of_Placed :
      (s2 : State) (block_header block_size : ℕ)
      → block_header ≡ alloc_pos - 9
      → header + 9 ≤ alloc_pos
      → alloc_pos + block_size ≡ header + 9 + hole_size
      → ((x : ℕ) → Outside header hole_size x → s2.mem x ≡ s.mem x)
      → {r : Run State} → Placed s2 block_header block_size size r
      → Taken s header hole_size size alloc_pos (r >>= λ s3. ok (s3, alloc_pos))
  Taken-of_Placed s2 block_header block_size e ge sum kept p = rw p.result (
      taken p.state p.used p.enough p.tight (omega (arith, p.within))
        (subst (λ h. IsBlock p.state.mem h p.used 0) e p.block)
        (λ x out. p.others x (omega (arith, out)) ∙ kept x out))

  module _ (b : IsBlock s.mem header hole_size 1) (word : header + hole_size + 17 < 2 ^ 32)
      (f : Fits (header + 9) hole_size size page_align alloc_pos) where
    -- Where the slot holds a well-formed hole that fits, the call returns the position.
    pub take_hole-Taken :
        Taken s header hole_size size alloc_pos (take_hole s size page_align iterator alloc_pos)
    unfolding take_hole
    take_hole-Taken =
        let good : (magic_of s.mem header == kheap_magic) ≡ true = ground (arith, b.magic) in
        rw (good, b.sized)
          (elim (Bool-cases page_align) [
            | inl aligned ↦
                let (t, e, kept) =
                  cut_front-eq unindexed header hole_size alloc_pos word
                    (omega (arith, f.front aligned)) (omega (arith, f.to)) in
                rw (aligned, e)
                  (Taken-of_Placed t (alloc_pos - 9) (hole_size - (alloc_pos - 9 - header)) refl
                    f.from (omega (arith, f.to, f.from)) kept
                    (placed t (alloc_pos - 9) (hole_size - (alloc_pos - 9 - header))
                      (omega (arith, f.to, f.from)) (omega (arith, f.to, f.from))))
            | inr anywhere ↦ rw anywhere (
                Taken-of_Placed unindexed header hole_size (omega (arith, f.exact anywhere)) f.from
                  (omega (arith, f.exact anywhere)) (λ x out. refl)
                  (placed unindexed header hole_size word (omega (arith, f.to, f.exact anywhere))))
          ])
      where
        placed :
            (t : State) (start block_size : ℕ)
            → start + block_size + 17 < 2 ^ 32
            → size ≤ block_size
            → Placed t start block_size size (use_block t start block_size size)
        placed t start block_size w room =
            Placed-of_Used t start block_size size room
              (use_block-Used t start block_size size w pos room)

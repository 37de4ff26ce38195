-- ===== src/KHeap/Blocks.antt =====
-- `make_block`: a well-formed block, and nothing else written.
use os_learning.Base.{
  ℕ, zero, suc, ◌+◌, ◌%◌, ◌^◌, ◌≤◌, ◌<◌, ◌≡◌, refl, ◌∙◌, ◌⊎◌, inl, inr, true, arith, ltb, update,
  update_self,
}
use os_learning.Memory.{Mem, write32, sub32, ok, panic}
use os_learning.Memory.Words.{write32-at, read32-write32, read32-eq}
use os_learning.KHeap.{kheap_magic, magic_of, is_hole_of, size_of, header_of, make_block}

-- A header at `start` and its footer, for a block of `size` bytes.
pub record IsBlock (m : Mem) (start size is_hole : ℕ) : Type 0 where
  pub magic : magic_of m start ≡ kheap_magic
  pub hole : is_hole_of m start ≡ is_hole
  pub sized : size_of m start ≡ size
  pub foot_magic : magic_of m (start + 9 + size) ≡ kheap_magic
  pub foot_header : header_of m (start + 9 + size) ≡ start

-- The addresses that `make_block` writes.
abbrev pub Touched : ℕ → ℕ → ℕ → Type 0
Touched start size x =
    ((start ≤ x) × (x < start + 9)) ⊎ ((start + 9 + size ≤ x) × (x < start + 17 + size))

abbrev pub Untouched : ℕ → ℕ → ℕ → Type 0
Untouched start size x =
    (x < start) ⊎ (((start + 9 ≤ x) × (x < start + 9 + size)) ⊎ (start + 17 + size ≤ x))

-- A block depends on its header and footer only.
pub IsBlock-eq :
    (m n : Mem) (start size is_hole : ℕ)
    → ((x : ℕ) → Touched start size x → n x ≡ m x)
    → IsBlock m start size is_hole
    → IsBlock n start size is_hole
IsBlock-eq m n start size is_hole same b = record {
  magic = read32-eq m n start (λ x lo hi. same x (inl (omega arith))) ∙ b.magic;
  hole = same (start + 4) (inl (omega arith)) ∙ b.hole;
  sized = read32-eq m n (start + 5) (λ x lo hi. same x (inl (omega arith))) ∙ b.sized;
  foot_magic =
      read32-eq m n (start + 9 + size) (λ x lo hi. same x (inr (omega arith))) ∙ b.foot_magic;
  foot_header =
      read32-eq m n (start + 9 + size + 4) (λ x lo hi. same x (inr (omega arith))) ∙ b.foot_header;
}

module _ (m : Mem) (start size is_hole : ℕ) (word : start + size + 17 < 2 ^ 32)
    (pos : 0 < size) where
  m1 : Mem
  m1 = write32 m start kheap_magic

  m2 : Mem
  m2 = write32 m1 (start + 5) size

  m3 : Mem
  m3 = update m2 (start + 4) is_hole

  foot : ℕ
  foot = start + 9 + size

  m4 : Mem
  m4 = write32 m3 foot kheap_magic

  m5 : Mem
  m5 = write32 m4 (foot + 4) start

  make_block-eq : make_block m start size is_hole ≡ ok m5
  unfolding make_block m1 m2 m3 m4 m5 foot
  make_block-eq =
      let t : ltb 0 size ≡ true = ground arith in
      let e : sub32 ((start + size + 17) % 2 ^ 32) 8 ≡ start + 9 + size = omega arith in rw (t, e)

  m5-below : (x : ℕ) → (x < foot) ⊎ (foot + 8 ≤ x) → m5 x ≡ m3 x
  unfolding m4 m5 foot
  m5-below x h =
      write32-at m4 (start + 9 + size + 4) start x (omega arith)
      ∙ write32-at m3 (start + 9 + size) kheap_magic x (omega arith)

  m3-at : (x : ℕ) → (x < start + 4) ⊎ (start + 4 < x) → m3 x ≡ m2 x
  unfolding m3
  m3-at x h = ground arith

  m5-IsBlock : IsBlock m5 start size is_hole
  unfolding m1 m2 m3 m4 m5 foot
  m5-IsBlock = record {
    magic =
        read32-eq m2 m5 start (λ x lo hi. m5-below x (omega arith) ∙ m3-at x (omega arith))
        ∙ read32-eq m1 m2 start (λ x lo hi. write32-at m1 (start + 5) size x (omega arith))
        ∙ read32-write32 m start kheap_magic (omega arith);
    hole = m5-below (start + 4) (omega arith) ∙ update_self m2 (start + 4) is_hole;
    sized =
        read32-eq m2 m5 (start + 5) (λ x lo hi. m5-below x (omega arith) ∙ m3-at x (omega arith))
        ∙ read32-write32 m1 (start + 5) size (omega arith);
    foot_magic =
        read32-eq m4 m5 foot (λ x lo hi. write32-at m4 (foot + 4) start x (omega arith))
        ∙ read32-write32 m3 foot kheap_magic (omega arith);
    foot_header = read32-write32 m4 (foot + 4) start (omega arith);
  }

  make_block-frame : (x : ℕ) → Untouched start size x → m5 x ≡ m x
  unfolding m1 m2 m3 foot
  make_block-frame x h =
      m5-below x (omega arith)
      ∙ m3-at x (omega arith)
      ∙ write32-at m1 (start + 5) size x (omega arith)
      ∙ write32-at m start kheap_magic x (omega arith)

-- What `make_block` does when it returns: a well-formed block at `start`, and no other byte changes.
pub record Made (m m' : Mem) (start size is_hole : ℕ) : Type 0 where
  pub block : IsBlock m' start size is_hole
  pub others : (x : ℕ) → Untouched start size x → m' x ≡ m x

-- For a block that ends below 2 ^ 32, `make_block` panics if it is empty; otherwise it writes the
-- block's header and footer, which then read back, and changes no byte outside them.
pub make_block-Made :
    (m : Mem) (start size is_hole : ℕ)
    → start + size + 17 < 2 ^ 32
    → ((size ≡ 0) × (make_block m start size is_hole ≡ panic))
      ⊎ ((0 < size)
          × ((m' : Mem) × (make_block m start size is_hole ≡ ok m') × Made m m' start size is_hole))
make_block-Made m start zero is_hole word = inl (refl, unfold make_block in refl)
make_block-Made m start (suc n) is_hole word =
    let pos : 0 < suc n = omega arith in
    inr (
      pos,
      (
        m5 m start (suc n) is_hole word pos,
        make_block-eq m start (suc n) is_hole word pos,
        record {
          block = m5-IsBlock m start (suc n) is_hole word pos;
          others = make_block-frame m start (suc n) is_hole word pos;
        },
      ),
    )

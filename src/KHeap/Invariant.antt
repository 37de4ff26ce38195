-- ===== src/KHeap/Invariant.antt =====
-- The invariant of the heap between two calls, and the state of a block that has left the index.
use os_learning.Base.{
  ℕ, ◌+◌, ◌-◌, ◌^◌, ◌≤◌, ◌<◌, ◌≡◌, refl, sym, ap, ◌∙◌, subst, ◌≢◌, ◌⊎◌, Bool, true, false, arith,
  inl, inr, List, [], ◌∷◌, ◌++◌, update, update_self, length-append,
}
use os_learning.Memory.{Mem}
use os_learning.Memory.Words.{read32-eq}
use os_learning.OrderedArray.{OrderedArray}
use os_learning.OrderedArray.Insert.{count}
use os_learning.KHeap.{State, kheap_magic, magic_of}
use os_learning.KHeap.Blocks.{IsBlock}
use os_learning.KHeap.Layout.{
  Block, Layout, after, holes, Coalesced, Layout-split, Layout-eq, Layout-after, after-ge,
  holes-append, count-append,
}
use os_learning.KHeap.Index.{IsIndex, IsIndex-reorder}

-- Where the heap lies, up to where it may grow, and how many holes its index has room for.
pub record Range : Type 0 where
  pub start : ℕ
  pub end : ℕ
  pub limit : ℕ
  pub max_size : ℕ

pub record IsPlaced (r : Range) (s : State) : Type 0 where
  pub starts : s.heap.start_address ≡ r.start
  pub ends : s.heap.end_address ≡ r.end
  pub limits : s.heap.max_address ≡ r.limit
  pub sized : s.heap.size + r.start ≡ r.end
  pub storage : s.heap.index.max_size ≡ r.max_size
  pub low : 17 ≤ r.start
  pub high : r.end < 2 ^ 32
  pub within : r.end ≤ r.limit
  pub nonempty : r.start < r.end

-- Only the fields that say where the heap lies matter.
pub IsPlaced-kept :
    (r : Range) (s : State) (mem : Mem) (index : OrderedArray)
    → index.max_size ≡ s.heap.index.max_size
    → IsPlaced r s
    → IsPlaced r (record { mem = mem; heap = record (s.heap) { index = index } })
IsPlaced-kept r s mem index same p = record {
  starts = p.starts;
  ends = p.ends;
  limits = p.limits;
  sized = p.sized;
  storage = same ∙ p.storage;
  low = p.low;
  high = p.high;
  within = p.within;
  nonempty = p.nonempty;
}

-- Neither the word before the first block's would-be neighbour nor a word between the heap's end and
-- its limit is a magic number, since `free` takes what it reads there for a block's record.
pub record IsFenced (r : Range) (m : Mem) : Type 0 where
  pub left : magic_of m (r.start - 8) ≢ kheap_magic
  pub right : (a : ℕ) → r.end ≤ a → a ≤ r.limit → magic_of m a ≢ kheap_magic

-- The blocks fill the heap, the index holds the holes, and no two holes touch.
pub record IsHeap (r : Range) (s : State) (bs : List Block) : Type 0 where
  pub placed : IsPlaced r s
  pub fenced : IsFenced r s.mem
  pub layout : Layout s.mem r.start bs r.end
  pub listed : IsIndex s.heap.index (holes r.start bs)
  pub coalesced : Coalesced false bs

-- A hole at `a`, of `size` bytes between the blocks `pre` and `post`, is not in the index.
pub record IsOpen (r : Range) (s : State) (pre : List Block) (a size : ℕ) (post : List Block)
    : Type 0 where
  pub placed : IsPlaced r s
  pub fenced : IsFenced r s.mem
  pub before : Layout s.mem r.start pre a
  pub block : IsBlock s.mem a size 1
  pub pos : 0 < size
  pub behind : Layout s.mem (a + 17 + size) post r.end
  pub listed : IsIndex s.heap.index (holes r.start pre ++ holes (a + 17 + size) post)

-- Whether the last block is a hole.
abbrev pub last_free : Bool → List Block → Bool
last_free before [] = before
last_free before (b ∷ bs) = last_free b.free bs

-- A list is empty or has a last item.
pub last_cases :
    (xs : List Block) → (xs ≡ []) ⊎ ((ys : List Block) × (b : Block) × (xs ≡ ys ++ b ∷ []))
last_cases [] = inl refl
last_cases (x ∷ xs) = elim (last_cases xs) [
  | inl empty ↦ inr ([], x, ap (λ l. x ∷ l) empty)
  | inr (ys, b, e) ↦ inr (x ∷ ys, b, ap (λ l. x ∷ l) e)
]

pub last_free-snoc : (f : Bool) (ys : List Block) (b : Block) → last_free f (ys ++ b ∷ []) ≡ b.free
last_free-snoc f [] b = refl
last_free-snoc f (y ∷ ys) b = last_free-snoc y.free ys b

pub Coalesced-split :
    (before : Bool) (xs ys : List Block)
    → Coalesced before (xs ++ ys)
    → Coalesced before xs × Coalesced (last_free before xs) ys
Coalesced-split before [] ys c = (tt, c)
Coalesced-split before (b ∷ bs) ys c =
    let rest = Coalesced-split b.free bs ys c.1 in ((c.0, rest.0), rest.1)

pub Coalesced-append :
    (before : Bool) (xs ys : List Block)
    → Coalesced before xs
    → Coalesced (last_free before xs) ys
    → Coalesced before (xs ++ ys)
Coalesced-append before [] ys c d = d
Coalesced-append before (b ∷ bs) ys c d = (c.0, Coalesced-append b.free bs ys c.1 d)

-- What may stand behind a hole may stand behind a block in use.
pub Coalesced-weaken : (before : Bool) (bs : List Block) → Coalesced before bs → Coalesced false bs
Coalesced-weaken before [] c = tt
Coalesced-weaken before (b ∷ bs) c = (λ e. cc, c.1)

pub Layout-ge :
    (m : Mem) (start : ℕ) (bs : List Block) (end : ℕ) → Layout m start bs end → start ≤ end
Layout-ge m start bs end l = omega (arith, after-ge start bs, Layout-after m start bs end l)

-- Writes within the heap keep the fence.
pub IsFenced-kept :
    (r : Range) (m n : Mem)
    → 17 ≤ r.start
    → ((x : ℕ) → (x < r.start) → n x ≡ m x)
    → ((x : ℕ) → r.end ≤ x → n x ≡ m x)
    → IsFenced r m
    → IsFenced r n
IsFenced-kept r m n low below above f = record {
  left = λ e. f.left (sym (read32-eq m n (r.start - 8) (λ x lo hi. below x (omega arith))) ∙ e);
  right = λ a lo hi e. f.right a lo hi (sym (read32-eq m n a (λ x l h. above x (omega arith))) ∙ e);
}

-- The order of the holes of two parts.
pub IsIndex-middle :
    (s : State) (xs ys : List ℕ) (x : ℕ)
    → IsIndex s.heap.index (xs ++ x ∷ ys)
    → IsIndex s.heap.index (x ∷ xs ++ ys)
unfolding count
IsIndex-middle s xs ys x v =
    IsIndex-reorder s.heap.index (xs ++ x ∷ ys) (x ∷ xs ++ ys) v
      (λ y. omega (arith, count-append y xs (x ∷ ys), count-append y xs ys))
      (omega (arith, length-append {0} xs (x ∷ ys), length-append {0} xs ys))

pub IsIndex-unmiddle :
    (s : State) (xs ys : List ℕ) (x : ℕ)
    → IsIndex s.heap.index (x ∷ xs ++ ys)
    → IsIndex s.heap.index (xs ++ x ∷ ys)
unfolding count
IsIndex-unmiddle s xs ys x v =
    IsIndex-reorder s.heap.index (x ∷ xs ++ ys) (xs ++ x ∷ ys) v
      (λ y. omega (arith, count-append y xs (x ∷ ys), count-append y xs ys))
      (omega (arith, length-append {0} xs (x ∷ ys), length-append {0} xs ys))

-- A block in use becomes a hole that is not in the index.
IsBlock-mark :
    (m : Mem) (a size is_hole v : ℕ)
    → IsBlock m a size is_hole
    → IsBlock (update m (a + 4) v) a size v
IsBlock-mark m a size is_hole v b = record {
  magic = read32-eq m (update m (a + 4) v) a (λ x lo hi. ground arith) ∙ b.magic;
  hole = update_self m (a + 4) v;
  sized = read32-eq m (update m (a + 4) v) (a + 5) (λ x lo hi. ground arith) ∙ b.sized;
  foot_magic =
      read32-eq m (update m (a + 4) v) (a + 9 + size) (λ x lo hi. ground arith) ∙ b.foot_magic;
  foot_header =
      read32-eq m (update m (a + 4) v) (a + 9 + size + 4) (λ x lo hi. ground arith) ∙ b.foot_header;
}

abbrev pub in_use : ℕ → Block
in_use size = record { size = size; free = false }

abbrev pub hole_of : ℕ → Block
hole_of size = record { size = size; free = true }

module _ (r : Range) (s : State) (pre post : List Block) (size : ℕ)
    (v : IsHeap r s (pre ++ in_use size ∷ post)) where
  abbrev a : ℕ
  a = after r.start pre

  abbrev marked : State
  marked = record s { mem = update s.mem (a + 4) 1 }

  -- `header->is_hole = 1`
  pub IsOpen-mark : IsOpen r marked pre a size post
  IsOpen-mark =
      let parts = Layout-split s.mem r.start pre (in_use size ∷ post) r.end v.layout in
      let ge : r.start ≤ a = after-ge r.start pre in
      let le : a + 17 + size ≤ r.end = Layout-ge s.mem (a + 17 + size) post r.end parts.1.2 in
      record {
        placed = IsPlaced-kept r s marked.mem s.heap.index refl v.placed;
        fenced =
            IsFenced-kept r s.mem marked.mem v.placed.low (λ x h. ground arith)
              (λ x h. ground arith) v.fenced;
        before = Layout-eq s.mem marked.mem r.start pre a (λ x lo hi. ground arith) parts.0;
        block = IsBlock-mark s.mem a size 0 1 parts.1.0;
        pos = parts.1.1;
        behind =
            Layout-eq s.mem marked.mem (a + 17 + size) post r.end (λ x lo hi. ground arith)
              parts.1.2;
        listed =
            subst (IsIndex s.heap.index) (holes-append r.start pre (in_use size ∷ post)) v.listed;
      }

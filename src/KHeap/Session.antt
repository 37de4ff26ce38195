-- ===== src/KHeap/Session.antt =====
-- Any sequence of allocations, frees and writes by the heap's users, from a heap that is one hole.
use os_learning.Base.{
  ℕ, ◌+◌, ◌-◌, ◌^◌, ◌≤◌, ◌<◌, ◌≡◌, refl, ap, Bool, arith, ◌==◌, ==_iff, Bool-cases, inl, inr, List,
  [], ◌∷◌, ◌++◌, length, update,
}
use os_learning.OrderedArray.Insert.{count}
use os_learning.Memory.{ok}
use os_learning.KHeap.{State, size_of}
use os_learning.KHeap.Alloc.{alloc}
use os_learning.KHeap.Free.{free}
use os_learning.KHeap.Layout.{Block, used}
use os_learning.KHeap.Invariant.{Range, IsHeap}

-- The states that are reached from `s0`, with the pointers that were given out and not yet freed. A
-- user writes within the size that the block's header says. Each call needs room in the index.
pub data Session (r : Range) (s0 : State) : State → List ℕ → Type 0 where
  begun : Session r s0 s0 []
  allocates :
      (s s' : State) (live : List ℕ) (size : ℕ) (page_align : Bool) (ptr : ℕ)
      → Session r s0 s live
      → 0 < size
      → r.limit + size + 8192 < 2 ^ 32
      → s.heap.index.size + 1 < r.max_size
      → alloc 4 s size page_align ≡ ok (s', ptr)
      → Session r s0 s' (ptr ∷ live)
  frees :
      (s s' : State) (xs ys : List ℕ) (ptr : ℕ)
      → Session r s0 s (xs ++ ptr ∷ ys)
      → s.heap.index.size < r.max_size
      → free s ptr ≡ ok s'
      → Session r s0 s' (xs ++ ys)
  writes :
      (s : State) (live : List ℕ) (ptr x value : ℕ)
      → Session r s0 s live
      → 0 < count ptr live
      → ptr ≤ x
      → x < ptr + size_of s.mem (ptr - 9)
      → Session r s0 (record s { mem = update s.mem x value }) live

-- The data's addresses.
abbrev pub pointers : List (ℕ × ℕ) → List ℕ
pointers [] = []
pointers ((a, n) ∷ l) = (a + 9) ∷ pointers l

-- The heap is well formed, and its blocks in use are the pointers that are live.
pub record IsSound (r : Range) (s : State) (live : List ℕ) : Type 0 where
  pub end : ℕ
  pub blocks : List Block
  pub heap : IsHeap (record r { end = end }) s blocks
  pub same : (x : ℕ) → count x live ≡ count x (pointers (used r.start blocks))
  pub number : length live ≡ length (used r.start blocks)

pub pointers-append :
    (xs ys : List (ℕ × ℕ)) (x : ℕ)
    → count x (pointers (xs ++ ys)) ≡ count x (pointers xs) + count x (pointers ys)
unfolding count
pointers-append [] ys x = omega arith
pointers-append ((a, n) ∷ xs) ys x = omega (arith, pointers-append xs ys x)

-- The entry of a live pointer.
pub record LiveAt (l : List (ℕ × ℕ)) (ptr : ℕ) : Type 0 where
  pub xs : List (ℕ × ℕ)
  pub ys : List (ℕ × ℕ)
  pub a : ℕ
  pub n : ℕ
  pub split : l ≡ xs ++ (a, n) ∷ ys
  pub at : a + 9 ≡ ptr

pub LiveAt-of_count : (l : List (ℕ × ℕ)) (ptr : ℕ) → 0 < count ptr (pointers l) → LiveAt l ptr
unfolding count
LiveAt-of_count [] ptr h = absurd (omega arith)
LiveAt-of_count ((a, n) ∷ l) ptr h = elim (Bool-cases (a + 9 == ptr)) [
  | inl here ↦ record {
    xs = [];
    ys = l;
    a = a;
    n = n;
    split = refl;
    at = (==_iff (a + 9) ptr).0 here;
  }
  | inr later ↦
      let rest = LiveAt-of_count l ptr (ground arith) in
      record {
        xs = (a, n) ∷ rest.xs;
        ys = rest.ys;
        a = rest.a;
        n = rest.n;
        split = ap (λ t. (a, n) ∷ t) rest.split;
        at = rest.at;
      }
]

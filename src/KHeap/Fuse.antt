-- ===== src/KHeap/Fuse.antt =====
-- One hole out of two: the step that both merges of `free` share.
use os_learning.Base.{ℕ, ◌+◌, ◌≤◌, ◌<◌, ◌≡◌, arith, List, ◌∷◌, ◌++◌}
use os_learning.Memory.{Mem, ok}
use os_learning.OrderedArray.{OrderedArray}
use os_learning.KHeap.{State, make_block, index_remove}
use os_learning.KHeap.Split.{make_block-pos}
use os_learning.KHeap.Take.{Outside}
use os_learning.KHeap.Layout.{Block, Layout, holes, Layout-eq}
use os_learning.KHeap.Index.{IsIndex, index_remove-Removed}
use os_learning.KHeap.Invariant.{
  Range, IsPlaced, IsPlaced-kept, IsFenced, IsFenced-kept, IsOpen, Layout-ge,
}

-- A hole of `total` bytes is made at `c` over blocks of which `item` was in the index.
pub record Fused (r : Range) (s : State) (pre : List Block) (c total : ℕ) (post : List Block)
    (item : ℕ) : Type 0 where
  pub mem : Mem
  pub index : OrderedArray
  pub made : make_block s.mem c total 1 ≡ ok mem
  pub removed : index_remove s.heap item ≡ ok (record (s.heap) { index = index })
  pub opened :
      IsOpen r (record { mem = mem; heap = record (s.heap) { index = index } }) pre c total post
  pub fewer : index.size ≤ s.heap.index.size
  pub kept : (x : ℕ) → Outside c total x → mem x ≡ s.mem x

pub Fused-lem :
    (r : Range) (s : State) (pre : List Block) (c total : ℕ) (post : List Block) (item : ℕ)
    → IsPlaced r s
    → IsFenced r s.mem
    → Layout s.mem r.start pre c
    → Layout s.mem (c + 17 + total) post r.end
    → 0 < total
    → IsIndex s.heap.index (item ∷ holes r.start pre ++ holes (c + 17 + total) post)
    → Fused r s pre c total post item
Fused-lem r s pre c total post item placed fenced before behind pos listed =
    let ge : r.start ≤ c = Layout-ge s.mem r.start pre c before in
    let le : c + 17 + total ≤ r.end = Layout-ge s.mem (c + 17 + total) post r.end behind in
    let (m, e, made) = make_block-pos s.mem c total 1 (omega (arith, placed.high)) pos in
    let out =
      index_remove-Removed s.heap item (holes r.start pre ++ holes (c + 17 + total) post) listed in
    record {
      mem = m;
      index = out.index;
      made = e;
      removed = out.result;
      opened = record {
        placed = IsPlaced-kept r s m out.index out.max_same placed;
        fenced =
            IsFenced-kept r s.mem m placed.low (λ x h. made.others x (omega arith))
              (λ x h. made.others x (omega arith)) fenced;
        before = Layout-eq s.mem m r.start pre c (λ x lo hi. made.others x (omega arith)) before;
        block = made.block;
        pos = pos;
        behind =
            Layout-eq s.mem m (c + 17 + total) post r.end (λ x lo hi. made.others x (omega arith))
              behind;
        listed = out.listed;
      };
      fewer = omega (arith, listed.sized, out.listed.sized);
      kept = λ x out. made.others x (omega (arith, out));
    }

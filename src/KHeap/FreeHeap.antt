-- ===== src/KHeap/FreeHeap.antt =====
-- `free` on a heap that is well formed: the block becomes a hole, and the heap stays well formed.
use os_learning.Base.{
  ℕ, ◌+◌, ◌≤◌, ◌<◌, ◌≡◌, refl, sym, ap, ◌∙◌, subst, true, false, arith, ◌==◌, inl, inr, List, [],
  ◌∷◌, ◌++◌, update,
}
use os_learning.Memory.{sub32, add32, Run, ok, ◌>>=◌}
use os_learning.KHeap.{State, kheap_magic, magic_of, index_insert}
use os_learning.KHeap.Take.{Outside}
use os_learning.KHeap.Free.{merge_right, merge_left, free_block, free}
use os_learning.KHeap.Layout.{
  Block, Layout, after, holes, used, Covered, Covered-append, Covered-bounds, Coalesced,
  Layout-split, Layout-append, Layout-after, holes-append, used-append,
}
use os_learning.KHeap.Index.{IsIndex, index_insert-IsIndex, index_insert-max_size}
use os_learning.KHeap.Invariant.{
  Range, IsPlaced-kept, IsHeap, IsOpen, last_free, Coalesced-split, Coalesced-append, Layout-ge,
  IsIndex-unmiddle, in_use, hole_of, IsOpen-mark,
}
use os_learning.KHeap.Merge.{RightMerged, merge_right-RightMerged}
use os_learning.KHeap.MergeLeft.{LeftMerged, merge_left-LeftMerged}

-- Once the hole joins the index, the heap is well formed.
pub IsHeap-close :
    (r : Range) (s : State) (pre : List Block) (a size : ℕ) (post : List Block)
    → IsOpen r s pre a size post
    → s.heap.index.size < r.max_size
    → Coalesced false pre
    → last_free false pre ≡ false
    → Coalesced true post
    → IsHeap r (record s { heap = index_insert s.mem s.heap a }) (pre ++ hole_of size ∷ post)
unfolding index_insert
IsHeap-close r s pre a size post v room front last behind =
    let room' : s.heap.index.size < s.heap.index.max_size =
      subst (λ n. s.heap.index.size < n) (sym v.placed.storage) room in
    let at : after r.start pre ≡ a = Layout-after s.mem r.start pre a v.before in
    record {
      placed =
          IsPlaced-kept r s s.mem (index_insert s.mem s.heap a).index
            (index_insert-max_size s.mem s.heap a [] room') v.placed;
      fenced = v.fenced;
      layout =
          Layout-append s.mem r.start pre (hole_of size ∷ post) a r.end v.before
            (v.block, v.pos, v.behind);
      listed = subst (IsIndex (index_insert s.mem s.heap a).index) (sym (holes-hole at)) (
          IsIndex-unmiddle (record s { heap = index_insert s.mem s.heap a }) (holes r.start pre)
            (holes (a + 17 + size) post) a
            (index_insert-IsIndex s.mem s.heap a (holes r.start pre ++ holes (a + 17 + size) post)
              v.listed room'));
      coalesced = Coalesced-append false pre (hole_of size ∷ post) front (λ e. cc, behind);
    }
  where
    holes-hole :
        after r.start pre ≡ a
        → holes r.start (pre ++ hole_of size ∷ post)
          ≡ holes r.start pre ++ a ∷ holes (a + 17 + size) post
    holes-hole at =
        holes-append r.start pre (hole_of size ∷ post)
        ∙ ap (λ p. holes r.start pre ++ p ∷ holes (p + 17 + size) post) at

-- A block in use does not meet the hole.
Outside-hole :
    (start : ℕ) (front : List Block) (size : ℕ) (rest : List Block) (x : ℕ)
    → Covered (used start (front ++ hole_of size ∷ rest)) x
    → Outside (after start front) size x
Outside-hole start front size rest x c =
    elim (Covered-append (used start front) (used (after start front + 17 + size) rest) x
      (subst (λ u. Covered u x) (used-append start front (hole_of size ∷ rest)) c)) [
        | inl l ↦ inl (Covered-bounds start front x l).1
        | inr h ↦ inr (Covered-bounds (after start front + 17 + size) rest x h).0
      ]

-- What `free` does to the heap: it returns, the blocks fill the heap again, without the one that
-- is freed, and no byte of the blocks that stay in use changes.
pub record Released (r : Range) (s : State) (pre : List Block) (size : ℕ) (post : List Block)
    (res : Run State) : Type 0 where
  pub state : State
  pub blocks : List Block
  pub result : res ≡ ok state
  pub heap : IsHeap r state blocks
  pub used_same :
      used r.start blocks ≡ used r.start pre ++ used (after r.start pre + 17 + size) post
  pub kept : (x : ℕ) → Covered (used r.start blocks) x → state.mem x ≡ s.mem x

module _ (r : Range) (s : State) (pre post : List Block) (size : ℕ)
    (v : IsHeap r s (pre ++ in_use size ∷ post)) (room : s.heap.index.size < r.max_size) where
  abbrev a : ℕ
  a = after r.start pre

  abbrev marked : State
  marked = record s { mem = update s.mem (a + 4) 1 }

  parts : Layout s.mem r.start pre a × Layout s.mem a (in_use size ∷ post) r.end
  parts = Layout-split s.mem r.start pre (in_use size ∷ post) r.end v.layout

  calm : Coalesced false pre × Coalesced (last_free false pre) (in_use size ∷ post)
  calm = Coalesced-split false pre (in_use size ∷ post) v.coalesced

  merged_right : RightMerged r marked pre a size post (merge_right marked a (a + 17 + size))
  merged_right =
      merge_right-RightMerged r marked pre a size post (IsOpen-mark r s pre post size v) calm.1.1

  -- The three steps of `free_block` behind its two assertions.
  free_block-eq : free_block s (a + 9) ≡ (
      merge_right marked a (a + 17 + size) >>= λ s2.
      merge_left s2 a >>= λ p. ok (record (p.0) { heap = index_insert p.0.mem p.0.heap p.1 }))
  unfolding free_block
  free_block-eq =
      let le : a + 17 + size ≤ r.end = Layout-ge s.mem (a + 17 + size) post r.end parts.1.2 in
      let header : sub32 (a + 9) 9 ≡ a = omega (arith, v.placed.high) in
      let footer : add32 (a + 9) size ≡ a + 9 + size = omega (arith, v.placed.high) in
      let behind : add32 (a + 9 + size) 8 ≡ a + 17 + size = omega (arith, v.placed.high) in
      let magic : (magic_of s.mem a == kheap_magic) ≡ true = ground (arith, parts.1.0.magic) in
      let foot : (magic_of s.mem (a + 9 + size) == kheap_magic) ≡ true =
        ground (arith, parts.1.0.foot_magic) in
      rw (header, parts.1.0.sized, footer, magic, foot, behind) refl

  -- Both neighbours merged, the hole joins the index.
  released :
      (m : RightMerged r marked pre a size post (merge_right marked a (a + 17 + size)))
      → LeftMerged r m.state pre a m.total m.rest (merge_left m.state a)
      → Released r s pre size post (free_block s (a + 9))
  released m l =
      let end_same : l.at + 17 + l.total ≡ a + 17 + m.total = omega (arith, l.end_same) in
      let at : after r.start l.front ≡ l.at =
        Layout-after l.state.mem r.start l.front l.at l.opened.before in
      let used_all : used r.start (l.front ++ hole_of l.total ∷ m.rest)
          ≡ used r.start pre ++ used (a + 17 + size) post =
        used-append r.start l.front (hole_of l.total ∷ m.rest)
        ∙ ap (λ p. used r.start l.front ++ used (p + 17 + l.total) m.rest) at
        ∙ ap (λ p. used r.start l.front ++ used p m.rest) end_same
        ∙ ap (λ u. u ++ used (a + 17 + m.total) m.rest) l.used_same
        ∙ ap (λ u. used r.start pre ++ u) m.used_same in
      record {
        state = record (l.state) { heap = index_insert l.state.mem l.state.heap l.at };
        blocks = l.front ++ hole_of l.total ∷ m.rest;
        result = free_block-eq ∙ rw (m.result, l.result) refl;
        heap =
            IsHeap-close r l.state l.front l.at l.total m.rest l.opened
              (omega (arith, m.fewer, l.fewer)) l.coalesced l.calm m.calm;
        used_same = used_all;
        kept = λ x c.
            let out =
              subst (λ p. Outside p l.total x) at
                (Outside-hole r.start l.front l.total m.rest x c) in
            l.kept x out
            ∙ m.kept x (omega (arith, out, l.back, l.end_same))
            ∙ ground (arith, out, l.back, l.end_same, m.opened.pos);
      }

  -- Where the blocks fill the heap, no two holes touch, the index holds the holes and has room for one more,
  -- and the words around the heap are no magic numbers, `free` of a used block returns.
  pub free-Released : Released r s pre size post (free s (a + 9))
  unfolding free
  free-Released =
      let t : (a + 9 == 0) ≡ false = ground arith in
      rw t (
        released merged_right (
          merge_left-LeftMerged r merged_right.state a merged_right.total merged_right.rest pre
            merged_right.opened calm.0))

-- ===== src/KHeap/Gap.antt =====
-- A gap in the heap: bytes between two blocks that no block takes while `alloc` cuts a hole up.
use mathlib.Core.List.{append_assoc}
use os_learning.Base.{
  ℕ, ◌+◌, ◌≤◌, ◌<◌, ◌≡◌, refl, sym, ap, ◌∙◌, subst, true, false, arith, inl, inr, List, [], ◌∷◌,
  ◌++◌,
}
use os_learning.Memory.{Mem}
use os_learning.KHeap.{State, index_insert}
use os_learning.KHeap.Blocks.{IsBlock}
use os_learning.KHeap.Take.{Outside}
use os_learning.KHeap.Layout.{
  Block, Layout, after, holes, Coalesced, Layout-append, Layout-eq, Layout-after, holes-append,
}
use os_learning.KHeap.Index.{IsIndex, index_insert-IsIndex, index_insert-max_size}
use os_learning.KHeap.Invariant.{
  Range, IsPlaced, IsPlaced-kept, IsFenced, IsFenced-kept, IsHeap, Coalesced-append, Layout-ge,
  IsIndex-unmiddle, in_use, hole_of,
}

-- `size + 17` bytes at `a` between the blocks `pre` and `post`, of which nothing is in the index.
pub record IsGap (r : Range) (s : State) (pre : List Block) (a size : ℕ) (post : List Block)
    : Type 0 where
  pub placed : IsPlaced r s
  pub fenced : IsFenced r s.mem
  pub before : Layout s.mem r.start pre a
  pub behind : Layout s.mem (a + 17 + size) post r.end
  pub listed : IsIndex s.heap.index (holes r.start pre ++ holes (a + 17 + size) post)

module _ (r : Range) (s : State) (pre : List Block) (a size : ℕ) (post : List Block)
    (v : IsGap r s pre a size post) where
  pub gap-ge : r.start ≤ a
  gap-ge = Layout-ge s.mem r.start pre a v.before

  pub gap-le : a + 17 + size ≤ r.end
  gap-le = Layout-ge s.mem (a + 17 + size) post r.end v.behind

  -- What is written in the gap does not matter.
  pub IsGap-kept :
      (m : Mem)
      → ((x : ℕ) → Outside a size x → m x ≡ s.mem x)
      → IsGap r (record s { mem = m }) pre a size post
  IsGap-kept m same = record {
    placed = IsPlaced-kept r s m s.heap.index refl v.placed;
    fenced =
        IsFenced-kept r s.mem m v.placed.low (λ x h. same x (omega (arith, gap-ge)))
          (λ x h. same x (omega (arith, gap-le))) v.fenced;
    before = Layout-eq s.mem m r.start pre a (λ x lo hi. same x (inl hi)) v.before;
    behind = Layout-eq s.mem m (a + 17 + size) post r.end (λ x lo hi. same x (inr lo)) v.behind;
    listed = v.listed;
  }

  -- A gap that is a single hole in the index.
  pub inserted :
      (b : ℕ) (l : List ℕ)
      → s.heap.index.size < r.max_size
      → IsIndex s.heap.index l
      → IsPlaced r (record s { heap = index_insert s.mem s.heap b })
        × IsIndex (index_insert s.mem s.heap b).index (b ∷ l)
  unfolding index_insert
  inserted b l room listed =
      let room' : s.heap.index.size < s.heap.index.max_size =
        subst (λ n. s.heap.index.size < n) (sym v.placed.storage) room in
      (
        IsPlaced-kept r s s.mem (index_insert s.mem s.heap b).index
            (index_insert-max_size s.mem s.heap b [] room') v.placed,
        index_insert-IsIndex s.mem s.heap b l listed room',
      )

  -- The gap's first part becomes a hole.
  pub IsGap-cut :
      (n rest : ℕ)
      → n + 17 + rest ≡ size
      → 0 < n
      → IsBlock s.mem a n 1
      → s.heap.index.size < r.max_size
      → IsGap r
          (record s { heap = index_insert s.mem s.heap a })
          (pre ++ hole_of n ∷ [])
          (a + 17 + n)
          rest
          post
  IsGap-cut n rest sum pos block room =
      let e : a + 17 + n + 17 + rest ≡ a + 17 + size = omega arith in
      let at : after r.start pre ≡ a = Layout-after s.mem r.start pre a v.before in
      let index = inserted a (holes r.start pre ++ holes (a + 17 + size) post) room v.listed in
      record {
        placed = index.0;
        fenced = v.fenced;
        before =
            Layout-append s.mem r.start pre (hole_of n ∷ []) a (a + 17 + n) v.before
              (block, pos, refl);
        behind = subst (λ p. Layout s.mem p post r.end) (sym e) v.behind;
        listed =
            subst (IsIndex (index_insert s.mem s.heap a).index)
              (sym (
                ap (λ l. l ++ holes (a + 17 + n + 17 + rest) post)
                  (holes-append r.start pre (hole_of n ∷ [])
                    ∙ ap (λ p. holes r.start pre ++ p ∷ []) at)
                ∙ append_assoc (holes r.start pre) (a ∷ []) (holes (a + 17 + n + 17 + rest) post)
                ∙ ap (λ p. holes r.start pre ++ a ∷ holes p post) e))
              (IsIndex-unmiddle (record s { heap = index_insert s.mem s.heap a })
                (holes r.start pre) (holes (a + 17 + size) post) a index.1);
      }

  -- The gap becomes a block in use.
  pub IsHeap-fill :
      0 < size
      → IsBlock s.mem a size 0
      → Coalesced false pre
      → Coalesced false post
      → IsHeap r s (pre ++ in_use size ∷ post)
  IsHeap-fill pos block front behind =
      let at : after r.start pre ≡ a = Layout-after s.mem r.start pre a v.before in
      record {
        placed = v.placed;
        fenced = v.fenced;
        layout =
            Layout-append s.mem r.start pre (in_use size ∷ post) a r.end v.before
              (block, pos, v.behind);
        listed =
            subst (IsIndex s.heap.index)
              (sym (
                holes-append r.start pre (in_use size ∷ post)
                ∙ ap (λ p. holes r.start pre ++ holes (p + 17 + size) post) at))
              v.listed;
        coalesced = Coalesced-append false pre (in_use size ∷ post) front (λ e. refl, behind);
      }

  -- The gap becomes a block in use and a hole behind it.
  pub IsHeap-split :
      (n rest : ℕ)
      → n + 17 + rest ≡ size
      → 0 < n
      → 0 < rest
      → IsBlock s.mem a n 0
      → IsBlock s.mem (a + 17 + n) rest 1
      → s.heap.index.size < r.max_size
      → Coalesced false pre
      → Coalesced true post
      → IsHeap r
          (record s { heap = index_insert s.mem s.heap (a + 17 + n) })
          (pre ++ in_use n ∷ hole_of rest ∷ post)
  IsHeap-split n rest sum pos more block hole room front behind =
      let e : a + 17 + n + 17 + rest ≡ a + 17 + size = omega arith in
      let at : after r.start pre ≡ a = Layout-after s.mem r.start pre a v.before in
      let index =
        inserted (a + 17 + n) (holes r.start pre ++ holes (a + 17 + size) post) room v.listed in
      record {
        placed = index.0;
        fenced = v.fenced;
        layout =
            Layout-append s.mem r.start pre (in_use n ∷ hole_of rest ∷ post) a r.end v.before
              (block, pos, (hole, more, subst (λ p. Layout s.mem p post r.end) (sym e) v.behind));
        listed =
            subst (IsIndex (index_insert s.mem s.heap (a + 17 + n)).index)
              (sym (
                holes-append r.start pre (in_use n ∷ hole_of rest ∷ post)
                ∙ ap (λ p. holes r.start pre ++ (p + 17 + n) ∷ holes (p + 17 + n + 17 + rest) post)
                    at
                ∙ ap (λ p. holes r.start pre ++ (a + 17 + n) ∷ holes p post) e))
              (IsIndex-unmiddle (record s { heap = index_insert s.mem s.heap (a + 17 + n) })
                (holes r.start pre) (holes (a + 17 + size) post) (a + 17 + n) index.1);
        coalesced =
            Coalesced-append false pre (in_use n ∷ hole_of rest ∷ post) front
              (λ e. refl, (λ e. cc, behind));
      }

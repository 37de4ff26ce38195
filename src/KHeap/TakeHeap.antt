-- ===== src/KHeap/TakeHeap.antt =====
-- `take_hole` on a heap that is well formed: the heap has one more block in use, and stays well
-- formed.
use mathlib.Core.List.{append-nil}
use os_learning.Base.{
  ℕ, ◌+◌, ◌-◌, ◌≤◌, ◌<◌, ◌≡◌, refl, sym, ap, ◌∙◌, subst, Bool, true, false, arith, leb, ◌==◌, inl,
  inr, List, [], ◌∷◌, ◌++◌,
}
use os_learning.OrderedArray
use os_learning.Memory.{Run, ok, ◌>>=◌}
use os_learning.KHeap.{State, kheap_magic, magic_of, index_insert}
use os_learning.KHeap.Take.{Outside, cut_front-Made}
use os_learning.KHeap.Alloc.{use_block, take_hole}
use os_learning.KHeap.Split.{Used, whole, split, use_block-Used}
use os_learning.KHeap.Bounds.{Fits}
use os_learning.KHeap.Layout.{
  Block, Layout, after, holes, used, Covered, Covered-append, Covered-bounds, Coalesced,
  Layout-split, after-append, holes-append, used-append,
}
use os_learning.KHeap.Index.{IsIndex, remove-IsIndex}
use os_learning.KHeap.Invariant.{
  Range, IsPlaced-kept, IsHeap, last_free, Coalesced-split, Coalesced-append, Coalesced-weaken,
  IsIndex-middle, in_use, hole_of,
}
use os_learning.KHeap.Gap.{
  IsGap, IsGap-kept, IsGap-cut, IsHeap-fill, IsHeap-split, gap-le, inserted,
}

-- What `use_block` does to a gap.
record Stored (r : Range) (s : State) (pre : List Block) (a total : ℕ) (post : List Block)
    (size : ℕ) (res : Run State) : Type 0 where
  state : State
  used_size : ℕ
  rest : List Block
  result : res ≡ ok state
  enough : size ≤ used_size
  heap : IsHeap r state (pre ++ in_use used_size ∷ rest)
  used_same : used (a + 17 + used_size) rest ≡ used (a + 17 + total) post
  kept : (x : ℕ) → Outside a total x → state.mem x ≡ s.mem x

module _ (r : Range) (s : State) (pre : List Block) (a total : ℕ) (post : List Block)
    (v : IsGap r s pre a total post) (size : ℕ) (pos : 0 < size) (fits : size ≤ total)
    (room : s.heap.index.size < r.max_size) (front : Coalesced false pre)
    (behind : Coalesced true post) where
  Stored-of_Used :
      {res : Run State} → Used s a total size res → Stored r s pre a total post size res
  Stored-of_Used (whole m' tight made) = record {
    state = record s { mem = m' };
    used_size = total;
    rest = post;
    result = refl;
    enough = fits;
    heap =
        IsHeap-fill r (record s { mem = m' }) pre a total post
          (IsGap-kept r s pre a total post v m' (λ x out. made.others x (omega arith)))
          (omega arith) made.block front (Coalesced-weaken true post behind);
    used_same = refl;
    kept = λ x out. made.others x (omega arith);
  }
  Stored-of_Used (split m' left sum more b rest others) = record {
    state = record { mem = m'; heap = index_insert m' s.heap (a + 17 + size) };
    used_size = size;
    rest = hole_of left ∷ post;
    result = refl;
    enough = omega arith;
    heap =
        IsHeap-split r (record s { mem = m' }) pre a total post
          (IsGap-kept r s pre a total post v m' (λ x out. others x (omega arith) (omega arith)))
          size left sum pos more b rest room front behind;
    used_same = ap (λ p. used p post) (omega arith);
    kept = λ x out. others x (omega arith) (omega arith);
  }

  use_block-Stored : Stored r s pre a total post size (use_block s a total size)
  use_block-Stored = Stored-of_Used (
      use_block-Used s a total size (omega (arith, gap-le r s pre a total post v, v.placed.high))
        pos fits)

-- What `alloc` does to the heap once the hole behind `pre` is found: it returns the position, the
-- blocks fill the heap again, with one more in use there, and no byte of the blocks that were in
-- use changes.
pub record Granted (r : Range) (s : State) (pre : List Block) (hole_size : ℕ) (post : List Block)
    (size alloc_pos : ℕ) (res : Run (State × ℕ)) : Type 0 where
  pub state : State
  pub blocks : List Block
  pub used_size : ℕ
  pub result : res ≡ ok (state, alloc_pos)
  pub heap : IsHeap r state blocks
  pub enough : size ≤ used_size
  pub used_more :
      used r.start blocks
      ≡ used r.start pre
        ++ (alloc_pos - 9, used_size) ∷ used (after r.start pre + 17 + hole_size) post
  pub kept :
      (x : ℕ)
      → Covered (used r.start pre ++ used (after r.start pre + 17 + hole_size) post) x
      → state.mem x ≡ s.mem x

module _ (r : Range) (s : State) (pre post : List Block) (hole_size : ℕ)
    (v : IsHeap r s (pre ++ hole_of hole_size ∷ post)) (i : ℕ) (inside : i < s.heap.index.size)
    (at : s.heap.index.array i ≡ after r.start pre) where
  abbrev a : ℕ
  a = after r.start pre

  abbrev unindexed : State
  unindexed = record s { heap = record (s.heap) { index = (OrderedArray.remove s.heap.index i).0 } }

  parts : Layout s.mem r.start pre a × Layout s.mem a (hole_of hole_size ∷ post) r.end
  parts = Layout-split s.mem r.start pre (hole_of hole_size ∷ post) r.end v.layout

  calm : Coalesced false pre × Coalesced (last_free false pre) (hole_of hole_size ∷ post)
  calm = Coalesced-split false pre (hole_of hole_size ∷ post) v.coalesced

  last : last_free false pre ≡ false
  last = ground (arith, calm.1.0)

  hole_first : IsIndex s.heap.index (a ∷ holes r.start pre ++ holes (a + 17 + hole_size) post)
  hole_first =
      IsIndex-middle s (holes r.start pre) (holes (a + 17 + hole_size) post) a (
        subst (IsIndex s.heap.index) (holes-append r.start pre (hole_of hole_size ∷ post)) v.listed)

  removed :
      IsIndex (unindexed.heap.index) (holes r.start pre ++ holes (a + 17 + hole_size) post)
      × (unindexed.heap.index.max_size ≡ s.heap.index.max_size)
  removed =
      remove-IsIndex s.heap.index i (holes r.start pre ++ holes (a + 17 + hole_size) post) inside (
        subst (λ p. IsIndex s.heap.index (p ∷ holes r.start pre ++ holes (a + 17 + hole_size) post))
          (sym at) hole_first)

  gap : IsGap r unindexed pre a hole_size post
  gap = record {
    placed = IsPlaced-kept r s s.mem (OrderedArray.remove s.heap.index i).0 removed.1 v.placed;
    fenced = v.fenced;
    before = parts.0;
    behind = parts.1.2;
    listed = removed.0;
  }

  -- One entry has left the index.
  fewer : unindexed.heap.index.size < s.heap.index.size
  fewer = omega (arith, hole_first.sized, removed.0.sized)

  outside :
      (x : ℕ)
      → Covered (used r.start pre ++ used (a + 17 + hole_size) post) x
      → Outside a hole_size x
  outside x c = elim (Covered-append (used r.start pre) (used (a + 17 + hole_size) post) x c) [
    | inl l ↦ inl (Covered-bounds r.start pre x l).1
    | inr h ↦ inr (Covered-bounds (a + 17 + hole_size) post x h).0
  ]

  module _ (size alloc_pos : ℕ) (pos : 0 < size) (room : s.heap.index.size < r.max_size) where
    -- The gap that is stored in starts at the position's header and ends with the hole.
    Granted-of_Stored :
        (s2 : State) (front : List Block) (total : ℕ)
        → after r.start front ≡ alloc_pos - 9
        → used r.start front ≡ used r.start pre
        → alloc_pos - 9 + total ≡ a + hole_size
        → a ≤ alloc_pos - 9
        → ((x : ℕ) → Outside a hole_size x → s2.mem x ≡ s.mem x)
        → {res : Run State} → Stored r s2 front (alloc_pos - 9) total post size res
        → Granted r s pre hole_size post size alloc_pos (res >>= λ s3. ok (s3, alloc_pos))
    Granted-of_Stored s2 front total ends same sum ge kept st =
        let end_same : alloc_pos - 9 + 17 + total ≡ a + 17 + hole_size = omega arith in
        record {
          state = st.state;
          blocks = front ++ in_use st.used_size ∷ st.rest;
          used_size = st.used_size;
          result = rw st.result refl;
          heap = st.heap;
          enough = st.enough;
          used_more =
              used-append r.start front (in_use st.used_size ∷ st.rest)
              ∙ ap
                  (λ p.
                    used r.start front ++ (p, st.used_size) ∷ used (p + 17 + st.used_size) st.rest)
                  ends
              ∙ ap (λ u. used r.start front ++ (alloc_pos - 9, st.used_size) ∷ u) st.used_same
              ∙ ap (λ p. used r.start front ++ (alloc_pos - 9, st.used_size) ∷ used p post) end_same
              ∙ ap (λ u. u ++ (alloc_pos - 9, st.used_size) ∷ used (a + 17 + hole_size) post) same;
          kept = λ x c. let out = outside x c in st.kept x (omega (arith, out)) ∙ kept x out;
        }

    get_is : OrderedArray.get s.heap.index i ≡ a
    unfolding OrderedArray.get
    get_is = let t : leb s.heap.index.size i ≡ false = ground arith in rw t at

    good : (magic_of s.mem a == kheap_magic) ≡ true
    good = ground (arith, parts.1.0.magic)

    Granted-plain :
        Fits (a + 9) hole_size size false alloc_pos
        → Granted r s pre hole_size post size alloc_pos (take_hole s size false i alloc_pos)
    unfolding take_hole
    Granted-plain f =
        let e : a ≡ alloc_pos - 9 = omega (arith, f.exact refl) in
        rw (get_is, good, parts.1.0.sized)
          (Granted-of_Stored unindexed pre hole_size e refl (omega arith) (omega arith)
            (λ x out. refl)
            (subst
              (λ p.
                Stored r unindexed pre p hole_size post size (use_block unindexed a hole_size size))
              e
              (use_block-Stored r unindexed pre a hole_size post gap size pos
                (omega (arith, f.to, f.from)) (omega (arith, fewer)) calm.0 calm.1.1)))

    Granted-aligned :
        Fits (a + 9) hole_size size true alloc_pos
        → Granted r s pre hole_size post size alloc_pos (take_hole s size true i alloc_pos)
    unfolding take_hole
    Granted-aligned f =
        let n : ℕ = alloc_pos - 9 - a - 17 in
        let total : ℕ = hole_size - (alloc_pos - 9 - a) in
        let ahead : a + 26 < alloc_pos = omega (arith, f.front refl) in
        let le = gap-le r unindexed pre a hole_size post gap in
        let (m, e, made) =
          cut_front-Made unindexed a hole_size alloc_pos (omega (arith, le, v.placed.high)) ahead
            (omega (arith, f.to)) in
        let cut : IsGap r (record unindexed { mem = m }) pre a hole_size post =
          IsGap-kept r unindexed pre a hole_size post gap m
            (λ x out. made.others x (omega (arith, out, f.to))) in
        let next : a + 17 + n ≡ alloc_pos - 9 = omega arith in
        let sum : n + 17 + total ≡ hole_size = omega (arith, f.to) in
        let l = last in
        let bigger =
          inserted r (record unindexed { mem = m }) pre a hole_size post cut a
            (holes r.start pre ++ holes (a + 17 + hole_size) post) (omega (arith, fewer))
            removed.0 in
        let s2 : State = record { mem = m; heap = index_insert m unindexed.heap a } in
        let left : IsGap r s2 (pre ++ hole_of n ∷ []) (alloc_pos - 9) total post =
          subst (λ p. IsGap r s2 (pre ++ hole_of n ∷ []) p total post) next
            (IsGap-cut r (record unindexed { mem = m }) pre a hole_size post cut n total sum
              (omega arith) made.block (omega (arith, fewer))) in
        rw (get_is, good, parts.1.0.sized, e)
          (Granted-of_Stored s2 (pre ++ hole_of n ∷ []) total
            (after-append r.start pre (hole_of n ∷ []) ∙ next)
            (used-append r.start pre (hole_of n ∷ []) ∙ append-nil (used r.start pre))
            (omega (arith, f.to)) (omega arith) (λ x out. made.others x (omega (arith, out, f.to)))
            (use_block-Stored r s2 (pre ++ hole_of n ∷ []) (alloc_pos - 9) total post left size pos
              (omega (arith, f.to)) (omega (arith, fewer, bigger.1.sized, removed.0.sized))
              (Coalesced-append false pre (hole_of n ∷ []) calm.0 (λ c. cc, tt)) calm.1.1))

    -- A hole that fits gives the block.
    pub take_hole-Granted :
        (page_align : Bool)
        → Fits (a + 9) hole_size size page_align alloc_pos
        → Granted r s pre hole_size post size alloc_pos (take_hole s size page_align i alloc_pos)
    take_hole-Granted true = Granted-aligned
    take_hole-Granted false = Granted-plain

-- ===== src/KHeap/MergeLeft.antt =====
-- `free` merges the new hole with a hole on its left.
use mathlib.Core.List.{append-nil}
use os_learning.Base.{
  ℕ, ◌+◌, ◌-◌, ◌%◌, ◌^◌, ◌≤◌, ◌≡◌, refl, sym, ap, ◌∙◌, subst, true, false, ◌&&◌, arith, ◌==◌,
  Bool-cases, inl, inr, List, [], ◌∷◌, ◌++◌, length-append,
}
use os_learning.Memory.{sub32, Run, ok}
use os_learning.OrderedArray.Insert.{count}
use os_learning.KHeap.{State, kheap_magic, magic_of, is_hole_of, header_of}
use os_learning.KHeap.Take.{Outside}
use os_learning.KHeap.Free.{merge_left}
use os_learning.KHeap.Layout.{
  Block, Layout, after, holes, used, Coalesced, Layout-split, holes-append, used-append,
  count-append,
}
use os_learning.KHeap.Fuse.{Fused-lem}
use os_learning.KHeap.Index.{IsIndex, IsIndex-reorder}
use os_learning.KHeap.Invariant.{
  Range, IsOpen, last_free, last_cases, last_free-snoc, Coalesced-split, Layout-ge,
}

-- After the merge with the left neighbour no hole stands in front of the new hole.
pub record LeftMerged (r : Range) (s : State) (pre : List Block) (a size : ℕ) (post : List Block)
    (res : Run (State × ℕ)) : Type 0 where
  pub state : State
  pub front : List Block
  pub at : ℕ
  pub total : ℕ
  pub result : res ≡ ok (state, at)
  pub opened : IsOpen r state front at total post
  pub coalesced : Coalesced false front
  pub calm : last_free false front ≡ false
  pub back : at ≤ a
  pub end_same : at + total ≡ a + size
  pub used_same : used r.start front ≡ used r.start pre
  pub fewer : state.heap.index.size ≤ s.heap.index.size
  pub kept : (x : ℕ) → Outside at total x → state.mem x ≡ s.mem x

module _ (r : Range) (s : State) (a size : ℕ) (post : List Block) where
  LeftMerged-none :
      (pre : List Block)
      → IsOpen r s pre a size post
      → Coalesced false pre
      → last_free false pre ≡ false
      → (magic_of s.mem (sub32 a 8) == kheap_magic)
          && (is_hole_of s.mem (header_of s.mem (sub32 a 8)) == 1)
        ≡ false
      → LeftMerged r s pre a size post (merge_left s a)
  unfolding merge_left
  LeftMerged-none pre v calm last test = record {
    state = s;
    front = pre;
    at = a;
    total = size;
    result = rw test;
    opened = v;
    coalesced = calm;
    calm = last;
    back = omega arith;
    end_same = refl;
    used_same = refl;
    fewer = omega arith;
    kept = λ x out. refl;
  }

  module _ (pre : List Block) (b : Block) (v : IsOpen r s (pre ++ b ∷ []) a size post)
      (calm : Coalesced false (pre ++ b ∷ [])) where
    abbrev c : ℕ
    c = after r.start pre

    parts : Layout s.mem r.start pre c × Layout s.mem c (b ∷ []) a
    parts = Layout-split s.mem r.start pre (b ∷ []) a v.before

    -- Where the code looks for the left footer.
    footer : sub32 a 8 ≡ c + 9 + b.size
    footer =
        omega (arith, parts.1.2, v.placed.high, Layout-ge s.mem (a + 17 + size) post r.end v.behind)

    LeftMerged-used : b.free ≡ false → LeftMerged r s (pre ++ b ∷ []) a size post (merge_left s a)
    LeftMerged-used taken =
        LeftMerged-none (pre ++ b ∷ []) v calm (last_free-snoc false pre b ∙ taken)
          (rw (footer, parts.1.0.foot_header) (ground (arith, parts.1.0.hole, taken)))

    listed_first :
        b.free ≡ true → IsIndex s.heap.index (c ∷ holes r.start pre ++ holes (a + 17 + size) post)
    unfolding count
    listed_first hole =
        let split : holes r.start (pre ++ b ∷ []) ≡ holes r.start pre ++ c ∷ [] =
          holes-append r.start pre (b ∷ []) ∙ rw hole in
        IsIndex-reorder s.heap.index ((holes r.start pre ++ c ∷ []) ++ holes (a + 17 + size) post)
          (c ∷ holes r.start pre ++ holes (a + 17 + size) post)
          (subst (λ l. IsIndex s.heap.index (l ++ holes (a + 17 + size) post)) split v.listed)
          (λ x. omega (
            arith,
            count-append x (holes r.start pre ++ c ∷ []) (holes (a + 17 + size) post),
            count-append x (holes r.start pre) (c ∷ []),
            count-append x (holes r.start pre) (holes (a + 17 + size) post),
          ))
          (omega (
            arith,
            length-append {0} (holes r.start pre ++ c ∷ []) (holes (a + 17 + size) post),
            length-append {0} (holes r.start pre) (c ∷ []),
            length-append {0} (holes r.start pre) (holes (a + 17 + size) post),
          ))

    LeftMerged-hole : b.free ≡ true → LeftMerged r s (pre ++ b ∷ []) a size post (merge_left s a)
    unfolding merge_left
    LeftMerged-hole hole =
        let next : a + 17 + size ≡ c + 17 + (b.size + size + 17) = omega (arith, parts.1.2) in
        let f =
          Fused-lem r s pre c (b.size + size + 17) post c v.placed v.fenced parts.0
            (subst (λ p. Layout s.mem p post r.end) next v.behind) (omega arith)
            (subst (λ p. IsIndex s.heap.index (c ∷ holes r.start pre ++ holes p post)) next
              (listed_first hole)) in
        let magic : (magic_of s.mem (c + 9 + b.size) == kheap_magic) ≡ true =
          ground (arith, parts.1.0.foot_magic) in
        let flagged : (is_hole_of s.mem c == 1) ≡ true = ground (arith, parts.1.0.hole, hole) in
        let sum : (b.size + size + 17) % 2 ^ 32 ≡ b.size + size + 17 =
          omega (
            arith,
            parts.1.2,
            v.placed.high,
            Layout-ge s.mem (a + 17 + size) post r.end v.behind,
          ) in
        let around = Coalesced-split false pre (b ∷ []) calm in
        record {
          state = record { mem = f.mem; heap = record (s.heap) { index = f.index } };
          front = pre;
          at = c;
          total = b.size + size + 17;
          result = rw (
            footer, magic, parts.1.0.foot_header, flagged, parts.1.0.sized, v.block.sized, sum,
            f.made, f.removed,
          );
          opened = f.opened;
          coalesced = around.0;
          calm = ground (arith, around.1.0, hole);
          back = omega (arith, parts.1.2);
          end_same = omega (arith, parts.1.2);
          used_same =
              sym (used-append r.start pre (b ∷ []) ∙ rw hole (append-nil (used r.start pre)));
          fewer = f.fewer;
          kept = f.kept;
        }

  -- The hole is absorbed by the hole in front of it, if there is one.
  pub merge_left-LeftMerged :
      (pre : List Block)
      → IsOpen r s pre a size post
      → Coalesced false pre
      → LeftMerged r s pre a size post (merge_left s a)
  merge_left-LeftMerged pre v calm = elim (last_cases pre) [
    | inl empty ↦
        let at_start : r.start ≡ a = subst (λ l. Layout s.mem r.start l a) empty v.before in
        let footer : sub32 a 8 ≡ r.start - 8 = omega (
          arith,
          at_start,
          v.placed.low,
          v.placed.high,
          Layout-ge s.mem (a + 17 + size) post r.end v.behind,
        ) in
        LeftMerged-none pre v calm (ap (last_free false) empty)
          (rw footer (ground (arith, v.fenced.left)))
    | inr (ys, b, e) ↦
        subst (λ l. LeftMerged r s l a size post (merge_left s a)) (sym e)
          (by_last ys b (subst (λ l. IsOpen r s l a size post) e v)
            (subst (λ l. Coalesced false l) e calm))
  ]
    where
      by_last :
          (ys : List Block) (b : Block)
          → IsOpen r s (ys ++ b ∷ []) a size post
          → Coalesced false (ys ++ b ∷ [])
          → LeftMerged r s (ys ++ b ∷ []) a size post (merge_left s a)
      by_last ys b w c = elim (Bool-cases b.free) [
        | inl hole ↦ LeftMerged-hole ys b w c hole
        | inr taken ↦ LeftMerged-used ys b w c taken
      ]

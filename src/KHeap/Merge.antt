-- ===== src/KHeap/Merge.antt =====
-- `free` merges the new hole with a hole on its right.
use os_learning.Base.{
  ℕ, ◌+◌, ◌%◌, ◌^◌, ◌≤◌, ◌≡◌, refl, sym, ap, subst, true, false, not, ◌&&◌, arith, ◌==◌, Bool-cases,
  inl, inr, List, [], ◌∷◌, ◌++◌,
}
use os_learning.Memory.{Run, ok}
use os_learning.KHeap.{State, kheap_magic, magic_of, is_hole_of}
use os_learning.KHeap.Take.{Outside}
use os_learning.KHeap.Free.{merge_right}
use os_learning.KHeap.Layout.{Block, Layout, holes, used, Coalesced}
use os_learning.KHeap.Fuse.{Fused-lem}
use os_learning.KHeap.Index.{IsIndex}
use os_learning.KHeap.Invariant.{Range, IsOpen, Layout-ge, IsIndex-middle}

-- After the merge with the right neighbour no hole stands behind the new hole.
pub record RightMerged (r : Range) (s : State) (pre : List Block) (a size : ℕ) (post : List Block)
    (res : Run State) : Type 0 where
  pub state : State
  pub total : ℕ
  pub rest : List Block
  pub result : res ≡ ok state
  pub opened : IsOpen r state pre a total rest
  pub calm : Coalesced true rest
  pub used_same : used (a + 17 + total) rest ≡ used (a + 17 + size) post
  pub fewer : state.heap.index.size ≤ s.heap.index.size
  pub kept : (x : ℕ) → Outside a total x → state.mem x ≡ s.mem x

module _ (r : Range) (s : State) (pre : List Block) (a size : ℕ) where
  RightMerged-none :
      (post : List Block)
      → IsOpen r s pre a size post
      → Coalesced true post
      → (magic_of s.mem (a + 17 + size) == kheap_magic)
          && not (is_hole_of s.mem (a + 17 + size) == 0)
        ≡ false
      → RightMerged r s pre a size post (merge_right s a (a + 17 + size))
  unfolding merge_right
  RightMerged-none post v calm test = record {
    state = s;
    total = size;
    rest = post;
    result = rw test;
    opened = v;
    calm = calm;
    used_same = refl;
    fewer = omega arith;
    kept = λ x out. refl;
  }

  RightMerged-some :
      (b : Block) (post : List Block)
      → b.free ≡ true
      → IsOpen r s pre a size (b ∷ post)
      → Coalesced true post
      → RightMerged r s pre a size (b ∷ post) (merge_right s a (a + 17 + size))
  unfolding merge_right
  RightMerged-some b post hole v calm =
      let next : a + 17 + size + 17 + b.size ≡ a + 17 + (size + b.size + 17) = omega arith in
      let le : a + 17 + size + 17 + b.size ≤ r.end =
        Layout-ge s.mem (a + 17 + size + 17 + b.size) post r.end v.behind.2 in
      let index : IsIndex s.heap.index (holes r.start pre ++ holes (a + 17 + size) (b ∷ post)) =
        v.listed in
      let f =
        Fused-lem r s pre a (size + b.size + 17) post (a + 17 + size) v.placed v.fenced v.before
          (subst (λ p. Layout s.mem p post r.end) next v.behind.2) (omega arith)
          (subst (λ p. IsIndex s.heap.index ((a + 17 + size) ∷ holes r.start pre ++ holes p post))
            next
            (IsIndex-middle s (holes r.start pre) (holes (a + 17 + size + 17 + b.size) post)
              (a + 17 + size) (rw hole at index))) in
      let magic : (magic_of s.mem (a + 17 + size) == kheap_magic) ≡ true =
        ground (arith, v.behind.0.magic) in
      let flagged : not (is_hole_of s.mem (a + 17 + size) == 0) ≡ true =
        ground (arith, v.behind.0.hole, hole) in
      let sum : (size + b.size + 17) % 2 ^ 32 ≡ size + b.size + 17 = omega (arith, v.placed.high) in
      record {
        state = record { mem = f.mem; heap = record (s.heap) { index = f.index } };
        total = size + b.size + 17;
        rest = post;
        result = rw (magic, flagged, v.block.sized, v.behind.0.sized, sum, f.made, f.removed);
        opened = f.opened;
        calm = calm;
        used_same = rw hole (ap (λ p. used p post) (sym next));
        fewer = f.fewer;
        kept = f.kept;
      }

  -- The hole absorbs the hole behind it, if there is one.
  pub merge_right-RightMerged :
      (post : List Block)
      → IsOpen r s pre a size post
      → Coalesced false post
      → RightMerged r s pre a size post (merge_right s a (a + 17 + size))
  merge_right-RightMerged [] v calm = RightMerged-none [] v tt (
      ground (
        arith,
        v.fenced.right (a + 17 + size) (omega (arith, v.behind))
            (omega (arith, v.behind, v.placed.within)),
      ))
  merge_right-RightMerged (b ∷ post) v calm = elim (Bool-cases b.free) [
    | inl hole ↦ RightMerged-some b post hole v (subst (λ f. Coalesced f post) hole calm.1)
    | inr taken ↦
        RightMerged-none (b ∷ post) v (λ e. taken, calm.1) (ground (arith, v.behind.0.hole, taken))
  ]

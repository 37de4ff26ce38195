-- ===== src/KHeap/GrowHeap.antt =====
-- `grow` on a heap that is well formed: the last block becomes, or is followed by, a larger hole.
use mathlib.Core.List.{append-nil}
use os_learning.Base.{
  ℕ, ◌+◌, ◌-◌, ◌^◌, ◌≤◌, ◌<◌, ◌≡◌, refl, sym, ap, ◌∙◌, subst, true, false, not, arith, ◌==◌,
  if◌then◌else◌, Bool-cases, inl, inr, List, [], ◌∷◌, ◌++◌, length,
}
use os_learning.Memory.{sub32, add32, Run, ok, panic, ◌>>=◌}
use os_learning.KHeap.{
  State, KHeap, is_hole_of, size_of, header_of, index_insert, index_remove, make_block,
  align_to_page, expand,
}
use os_learning.KHeap.Alloc.{grow}
use os_learning.KHeap.Split.{make_block-pos}
use os_learning.KHeap.Grow.{align_to_page_lem, Expanded, nothing, too_big, grown, expand-Expanded}
use os_learning.KHeap.Layout.{
  Block, Layout, after, holes, used, Covered, Covered-bounds, Coalesced, Layout-split, Layout-eq,
  Layout-after, holes-append, used-append,
}
use os_learning.KHeap.Index.{IsIndex}
use os_learning.KHeap.Invariant.{
  Range, IsPlaced, IsPlaced-kept, IsFenced, IsFenced-kept, IsHeap, IsOpen, last_free, last_cases,
  last_free-snoc, Coalesced-split, Layout-ge, IsIndex-middle, hole_of,
}
use os_learning.KHeap.Fuse.{Fused-lem}
use os_learning.KHeap.FreeHeap.{IsHeap-close}

-- The heap with its end moved up.
abbrev pub extend : Range → ℕ → Range
extend r n = record r { end = r.end + n }

-- The bytes of the last block, if it is a hole.
abbrev pub tail_room : List Block → ℕ
tail_room [] = 0
tail_room (b ∷ []) = if b.free then b.size else 0
tail_room (b ∷ c ∷ bs) = tail_room (c ∷ bs)

pub tail_room-snoc :
    (bs : List Block) (b : Block) → tail_room (bs ++ b ∷ []) ≡ (if b.free then b.size else 0)
tail_room-snoc [] b = refl
tail_room-snoc (x ∷ []) b = refl
tail_room-snoc (x ∷ y ∷ bs) b = tail_room-snoc (y ∷ bs) b

length-holes :
    (start : ℕ) (bs : List Block) (b : Block)
    → length (holes start (bs ++ b ∷ [])) ≡ length (holes start bs) + (if b.free then 1 else 0)
length-holes start [] b = ground arith
length-holes start (x ∷ bs) b = ground (arith, length-holes (start + 17 + x.size) bs b)

-- What `grow` does: it panics past the limit, and otherwise the last block is a hole that is
-- larger, by what the heap has grown by less a header and a footer at most.
pub data Enlarged (r : Range) (s : State) (bs : List Block) (ext : ℕ) : Run State → Type 0 where
  too_large : r.limit < r.end + ext → Enlarged r s bs ext panic
  enlarged :
      (s' : State) (front : List Block) (n : ℕ)
      → IsHeap (extend r ext) s' (front ++ hole_of n ∷ [])
      → tail_room bs + ext ≤ n + 17
      → used r.start (front ++ hole_of n ∷ []) ≡ used r.start bs
      → s'.heap.index.size ≤ s.heap.index.size + (if last_free false bs then 0 else 1)
      → ((x : ℕ) → Covered (used r.start bs) x → s'.mem x ≡ s.mem x)
      → Enlarged r s bs ext (ok s')

-- The heap's record behind `kheap_expand`.
abbrev stretched : State → ℕ → State
stretched s n = record s {
  heap = record (s.heap) { end_address = s.heap.end_address + n; size = s.heap.size + n };
}

module _ (r : Range) (s : State) (size ext : ℕ) (pos : 17 < ext) (low : r.limit < 2 ^ 32)
    (fits : r.end + ext ≤ r.limit) where
  IsPlaced-stretched : IsPlaced r s → IsPlaced (extend r ext) (stretched s ext)
  IsPlaced-stretched p = record {
    starts = p.starts;
    ends = omega (arith, p.ends);
    limits = p.limits;
    sized = omega (arith, p.sized);
    storage = p.storage;
    low = p.low;
    high = omega arith;
    within = fits;
    nonempty = omega (arith, p.nonempty);
  }

  IsFenced-stretched : IsFenced r s.mem → IsFenced (extend r ext) s.mem
  IsFenced-stretched f = record { left = f.left; right = λ a lo hi. f.right a (omega arith) hi }

  module _ (front : List Block) (b : Block) (v : IsHeap r s (front ++ b ∷ [])) where
    abbrev c : ℕ
    c = after r.start front

    parts : Layout s.mem r.start front c × Layout s.mem c (b ∷ []) r.end
    parts = Layout-split s.mem r.start front (b ∷ []) r.end v.layout

    calm : Coalesced false front × Coalesced (last_free false front) (b ∷ [])
    calm = Coalesced-split false front (b ∷ []) v.coalesced

    -- The last footer leads to the last header.
    last_header : header_of s.mem (sub32 s.heap.end_address 8) ≡ c
    last_header =
        let e : sub32 s.heap.end_address 8 ≡ c + 9 + b.size =
          omega (arith, parts.1.2, v.placed.ends, v.placed.high) in
        rw e parts.1.0.foot_header

    -- The two ways on, where the heap may grow.
    abbrev onwards : ℕ → Run State
    onwards old_end =
        if not (is_hole_of s.mem c == 0)
        then (make_block s.mem c (add32 (size_of s.mem c) ext) 1 >>= λ m.
            index_remove (stretched s ext).heap c >>= λ h'.
            ok (record { mem = m; heap = index_insert m h' c }))
        else (make_block s.mem old_end (sub32 ext 17) 1 >>= λ m.
            ok (record { mem = m; heap = index_insert m (stretched s ext).heap old_end }))

    grow-eq :
        expand s.heap (add32 size 17) ≡ ok ((stretched s ext).heap, ext)
        → grow s size ≡ onwards r.end
    unfolding grow
    grow-eq e = rw (e, last_header) (ap onwards v.placed.ends)

    module _ (room : s.heap.index.size + (if b.free then 0 else 1) < r.max_size)
        (ready : expand s.heap (add32 size 17) ≡ ok ((stretched s ext).heap, ext)) where
      abbrev bs : List Block
      bs = front ++ b ∷ []

      -- A hole of its own behind a block in use.
      grow-used : b.free ≡ false → Enlarged r s bs ext (grow s size)
      grow-used taken =
          let (m, e, made) = make_block-pos s.mem r.end (ext - 17) 1 (omega arith) (omega arith) in
          let ge = Layout-ge s.mem r.start bs r.end v.layout in
          let placed = IsPlaced-stretched v.placed in
          let opened : IsOpen (extend r ext) (record (stretched s ext) { mem = m }) bs r.end
              (ext - 17) [] =
            record {
              placed = IsPlaced-kept (extend r ext) (stretched s ext) m s.heap.index refl placed;
              fenced =
                  IsFenced-kept (extend r ext) s.mem m v.placed.low
                    (λ x h. made.others x (omega arith)) (λ x h. made.others x (omega arith))
                    (IsFenced-stretched v.fenced);
              before =
                  Layout-eq s.mem m r.start bs r.end (λ x lo hi. made.others x (omega arith))
                    v.layout;
              block = made.block;
              pos = omega arith;
              behind = omega arith;
              listed = subst (IsIndex s.heap.index) (sym (append-nil (holes r.start bs))) v.listed;
            } in
          let last : last_free false bs ≡ false = last_free-snoc false front b ∙ taken in
          let spare : s.heap.index.size < r.max_size = ground (arith, taken) in
          let flagged : not (is_hole_of s.mem c == 0) ≡ false =
            ground (arith, parts.1.0.hole, taken) in
          let left : sub32 ext 17 ≡ ext - 17 = omega arith in
          let closed =
            IsHeap-close (extend r ext) (record (stretched s ext) { mem = m }) bs r.end (ext - 17)
              [] opened spare v.coalesced last tt in
          rw (grow-eq ready, flagged, left, e)
            (enlarged (record { mem = m; heap = index_insert m (stretched s ext).heap r.end }) bs
              (ext - 17) closed
              (omega
                (arith, tail_room-snoc front b, ap {B = ℕ} (λ f. if f then b.size else 0) taken))
              (used-append r.start bs (hole_of (ext - 17) ∷ []) ∙ append-nil (used r.start bs))
              (omega (
                arith,
                closed.listed.sized,
                v.listed.sized,
                length-holes r.start bs (hole_of (ext - 17)),
                ap {B = ℕ} (λ f. if f then 0 else 1) last,
              ))
              (λ x k. made.others x (
                omega (
                  arith,
                  (Covered-bounds r.start bs x k).1,
                  Layout-after s.mem r.start bs r.end v.layout,
                ))))

      grow-hole : b.free ≡ true → Enlarged r s bs ext (grow s size)
      grow-hole hole =
          let next : c + 17 + (b.size + ext) ≡ r.end + ext = omega (arith, parts.1.2) in
          let split : holes r.start bs ≡ holes r.start front ++ c ∷ [] =
            holes-append r.start front (b ∷ []) ∙ rw hole in
          let kept_used : used r.start bs ≡ used r.start front =
            used-append r.start front (b ∷ []) ∙ rw hole (append-nil (used r.start front)) in
          let f =
            Fused-lem (extend r ext) (stretched s ext) front c (b.size + ext) [] c
              (IsPlaced-stretched v.placed) (IsFenced-stretched v.fenced) parts.0 next (omega arith)
              (IsIndex-middle s (holes r.start front) [] c
                (subst (IsIndex s.heap.index) split v.listed)) in
          let flagged : not (is_hole_of s.mem c == 0) ≡ true =
            ground (arith, parts.1.0.hole, hole) in
          let sum : add32 b.size ext ≡ b.size + ext = omega (arith, parts.1.2) in
          let last : last_free false bs ≡ true = last_free-snoc false front b ∙ hole in
          let spare : s.heap.index.size < r.max_size = ground (arith, hole) in
          let closed =
            IsHeap-close (extend r ext)
              (record { mem = f.mem; heap = record ((stretched s ext).heap) { index = f.index } })
              front c (b.size + ext) [] f.opened (omega (arith, f.fewer)) calm.0
              (ground (arith, calm.1.0, hole)) tt in
          rw (grow-eq ready, flagged, parts.1.0.sized, sum, f.made, f.removed)
            (enlarged
              (record {
                mem = f.mem;
                heap = index_insert f.mem (record ((stretched s ext).heap) { index = f.index }) c;
              })
              front (b.size + ext) closed
              (omega
                (arith, tail_room-snoc front b, ap {B = ℕ} (λ f. if f then b.size else 0) hole))
              (used-append r.start front (hole_of (b.size + ext) ∷ [])
                ∙ append-nil (used r.start front)
                ∙ sym kept_used)
              (omega (
                arith,
                closed.listed.sized,
                v.listed.sized,
                length-holes r.start front b,
                length-holes r.start front (hole_of (b.size + ext)),
                ap {B = ℕ} (λ f. if f then 0 else 1) last,
                ap {B = ℕ} (λ f. if f then 1 else 0) hole,
              ))
              (λ x k.
                f.kept x
                  (inl (Covered-bounds r.start front x (subst (λ u. Covered u x) kept_used k)).1)))

module _ (r : Range) (s : State) (size : ℕ) (pos : 0 < size)
    (low : r.limit + size + 8192 < 2 ^ 32) where
  abbrev pub growth : ℕ
  growth = align_to_page (size + 17)

  pub growth-ge : size + 17 ≤ growth
  growth-ge = elim (align_to_page_lem (size + 17) (omega arith)) [
    | inl (_, _, lo, hi) ↦ lo
    | inr (big, _) ↦ absurd (omega arith)
  ]

  grow-of_last :
      (front : List Block) (b : Block)
      → IsHeap r s (front ++ b ∷ [])
      → s.heap.index.size + (if last_free false (front ++ b ∷ []) then 0 else 1) < r.max_size
      → Enlarged r s (front ++ b ∷ []) growth (grow s size)
  unfolding grow
  grow-of_last front b v room =
      by_growth
        (expand-Expanded s.heap (size + 17) (omega (arith, v.placed.ends, v.placed.within))
          (omega (arith, v.placed.ends, v.placed.sized)))
        refl
    where
      sum : add32 size 17 ≡ size + 17
      sum = omega arith

      by_growth :
          {e : Run (KHeap × ℕ)}
          → Expanded s.heap (size + 17) e
          → expand s.heap (size + 17) ≡ e
          → Enlarged r s (front ++ b ∷ []) growth (grow s size)
      by_growth (nothing none_asked) e = absurd (omega arith)
      by_growth (too_big over) e =
          rw (sum, e) (too_large (omega (arith, over, v.placed.ends, v.placed.limits)))
      by_growth (grown more within) e =
          let fits : r.end + growth ≤ r.limit =
            omega (arith, within, v.placed.ends, v.placed.limits) in
          let ready : expand s.heap (add32 size 17) ≡ ok ((stretched s growth).heap, growth) =
            ap (expand s.heap) sum ∙ e in
          let spare : s.heap.index.size + (if b.free then 0 else 1) < r.max_size =
            subst (λ f. s.heap.index.size + (if f then 0 else 1) < r.max_size)
              (last_free-snoc false front b) room in
          elim (Bool-cases b.free) [
            | inl hole ↦
                grow-hole r s size growth (omega (arith, growth-ge)) (omega arith) fits front b v
                  spare ready hole
            | inr taken ↦
                grow-used r s size growth (omega (arith, growth-ge)) (omega arith) fits front b v
                  spare ready taken
          ]

  -- The heap grows where its limit allows.
  pub grow-Enlarged :
      (bs : List Block)
      → IsHeap r s bs
      → s.heap.index.size + (if last_free false bs then 0 else 1) < r.max_size
      → Enlarged r s bs growth (grow s size)
  grow-Enlarged bs v room = elim (last_cases bs) [
    | inl empty ↦
        let e : r.start ≡ r.end = subst (λ l. Layout s.mem r.start l r.end) empty v.layout in
        absurd (omega (arith, e, v.placed.nonempty))
    | inr (front, b, e) ↦
        subst (λ l. Enlarged r s l growth (grow s size)) (sym e)
          (grow-of_last front b (subst (IsHeap r s) e v) (
            subst (λ l. s.heap.index.size + (if last_free false l then 0 else 1) < r.max_size) e
              room))
  ]

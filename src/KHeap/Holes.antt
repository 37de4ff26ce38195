-- ===== src/KHeap/Holes.antt =====
-- The holes of a heap that is well formed, in its index and at its end.
use os_learning.Base.{
  ℕ, zero, suc, ◌+◌, ◌^◌, ◌≤◌, ◌<◌, ◌≡◌, refl, sym, ap, ◌∙◌, subst, Bool, true, arith, ◌==◌, ==_iff,
  if◌then◌else◌, Bool-cases, inl, inr, List, [], ◌∷◌, ◌++◌,
}
use os_learning.OrderedArray.Contents.{slots}
use os_learning.OrderedArray.Insert.{count}
use os_learning.KHeap.{State, size_of, align_to_page}
use os_learning.KHeap.Grow.{align_to_page_lem}
use os_learning.KHeap.Bounds.{Fits, AreLow}
use os_learning.KHeap.Layout.{Block, Layout, after, holes, Layout-split, holes-append, count-append}
use os_learning.KHeap.Index.{count-slot}
use os_learning.KHeap.Invariant.{Range, IsHeap, last_cases, Layout-ge, hole_of}
use os_learning.KHeap.GrowHeap.{tail_room, tail_room-snoc}

-- A block that starts at an address of the list of holes.
pub record HoleAt (start : ℕ) (bs : List Block) (x : ℕ) : Type 0 where
  pub pre : List Block
  pub size : ℕ
  pub post : List Block
  pub split : bs ≡ pre ++ hole_of size ∷ post
  pub at : x ≡ after start pre

HoleAt-of_count :
    (start : ℕ) (bs : List Block) (x : ℕ) → 0 < count x (holes start bs) → HoleAt start bs x
unfolding count
HoleAt-of_count start [] x h = absurd (omega arith)
HoleAt-of_count start (b ∷ bs) x h = elim (Bool-cases b.free) [
  | inl hole ↦
      let b_is : b ≡ hole_of b.size = ap (λ f. record { size = b.size; free = f }) hole in
      elim (Bool-cases (start == x)) [
        | inl here ↦ record {
          pre = [];
          size = b.size;
          post = bs;
          split = ap (λ c. c ∷ bs) b_is;
          at = sym ((==_iff start x).0 here);
        }
        | inr later ↦
            later_hole (HoleAt-of_count (start + 17 + b.size) bs x (ground (arith, rw hole at h)))
      ]
  | inr taken ↦ later_hole (HoleAt-of_count (start + 17 + b.size) bs x (rw taken at h))
]
  where
    later_hole : HoleAt (start + 17 + b.size) bs x → HoleAt start (b ∷ bs) x
    later_hole rest = record {
      pre = b ∷ rest.pre;
      size = rest.size;
      post = rest.post;
      split = ap (λ l. b ∷ l) rest.split;
      at = rest.at;
    }

-- What is counted stands in a slot.
slot_of_count :
    (x : ℕ) (f : ℕ → ℕ) (i n : ℕ) → 0 < count x (slots f i n) → (j : ℕ) × (j < i + n) × (f j ≡ x)
unfolding count
slot_of_count x f i zero h = absurd (omega arith)
slot_of_count x f i (suc n) h = elim (Bool-cases (f i == x)) [
  | inl here ↦ (i, omega arith, (==_iff (f i) x).0 here)
  | inr later ↦ let (j, lt, e) = slot_of_count x f (suc i) n (ground arith) in (j, omega arith, e)
]

module _ (r : Range) (s : State) (bs : List Block) (v : IsHeap r s bs) where
  -- The hole in a slot.
  pub hole_in : (i : ℕ) → i < s.heap.index.size → HoleAt r.start bs (s.heap.index.array i)
  hole_in i h =
      HoleAt-of_count r.start bs (s.heap.index.array i)
        (count-slot s.heap.index i (holes r.start bs) h v.listed)

  pub size_in :
      (i : ℕ) (h : HoleAt r.start bs (s.heap.index.array i))
      → (size_of s.mem (s.heap.index.array i) ≡ h.size)
        × (s.heap.index.array i + 17 + h.size ≤ r.end)
  size_in i h =
      let l = subst (λ l. Layout s.mem r.start l r.end) h.split v.layout in
      let parts = Layout-split s.mem r.start h.pre (hole_of h.size ∷ h.post) r.end l in
      let le = Layout-ge s.mem (after r.start h.pre + 17 + h.size) h.post r.end parts.1.2 in
      (ap (size_of s.mem) h.at ∙ parts.1.0.sized, omega (arith, h.at))

  pub heap-AreLow : (size : ℕ) → r.limit + size + 8192 < 2 ^ 32 → AreLow s size
  heap-AreLow size low i h =
      let at = size_in i (hole_in i h) in omega (arith, at.0, at.1, v.placed.within)

  module _ (size : ℕ) (page_align : Bool) (low : r.limit + size + 8192 < 2 ^ 32) where
    -- A position in a hole that is large enough.
    room_for :
        (c n : ℕ)
        → size + 4113 ≤ n
        → c + 17 + n ≤ r.end
        → (p : ℕ) × Fits (c + 9) n size page_align p
    room_for c n big le = elim (Bool-cases page_align) [
      | inr anywhere ↦ (
        c + 9,
        record {
          from = omega arith;
          to = omega arith;
          exact = λ e. refl;
          aligned = λ e. cc;
          front = λ e. cc;
        },
      )
      | inl aligned ↦ elim (align_to_page_lem (c + 27) (omega (arith, v.placed.within))) [
        | inl (_, page, lo, hi) ↦ (
          align_to_page (c + 27),
          record {
            from = omega arith;
            to = omega arith;
            exact = λ e. cc;
            aligned = λ e. page;
            front = λ e. omega arith;
          },
        )
        | inr (over, _) ↦ absurd (omega (arith, v.placed.within))
      ]
    ]

    abbrev Fitting : Type 0
    Fitting =
        (i : ℕ) × (p : ℕ) × (i < s.heap.index.size)
        × Fits (s.heap.index.array i + 9) (size_of s.mem (s.heap.index.array i)) size page_align p

    Fitting-of_last :
        (front : List Block) (b : Block)
        → bs ≡ front ++ b ∷ []
        → size + 4113 ≤ tail_room bs
        → Fitting
    unfolding count
    Fitting-of_last front b e big =
        let c : ℕ = after r.start front in
        let room : size + 4113 ≤ (if b.free then b.size else 0) =
          omega (arith, ap tail_room e, tail_room-snoc front b) in
        let parts =
          Layout-split s.mem r.start front (b ∷ []) r.end
            (subst (λ l. Layout s.mem r.start l r.end) e v.layout) in
        let hole : b.free ≡ true = ground arith in
        let holes_eq : holes r.start bs ≡ holes r.start front ++ c ∷ [] =
          ap (holes r.start) e ∙ holes-append r.start front (b ∷ []) ∙ rw hole in
        let there : 0 < count c (slots s.heap.index.array 0 s.heap.index.size) = ground (
          arith,
          v.listed.counts c,
          ap (count c) holes_eq,
          count-append c (holes r.start front) (c ∷ []),
        ) in
        let (i, lt, at) = slot_of_count c s.heap.index.array 0 s.heap.index.size there in
        let (p, f) = room_for c b.size (ground arith) (omega (arith, parts.1.2)) in
        (
          i,
          p,
          omega arith,
          subst (λ x. Fits (x + 9) (size_of s.mem x) size page_align p) (sym at)
              (subst (λ n. Fits (c + 9) n size page_align p) (sym parts.1.0.sized) f),
        )

    -- A hole at the heap's end that is large enough fits.
    pub tail_fits : size + 4113 ≤ tail_room bs → Fitting
    tail_fits big = elim (last_cases bs) [
      | inl empty ↦ absurd (omega (arith, ap tail_room empty))
      | inr (front, b, e) ↦ Fitting-of_last front b e big
    ]

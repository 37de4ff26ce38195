-- ===== src/KHeap/Room.antt =====
-- Holes are few where blocks in use are few, since no two holes touch.
use os_learning.Base.{
  ℕ, suc, ◌+◌, ◌≤◌, ◌<◌, ◌≡◌, refl, sym, ap, ◌∙◌, subst, arith, Bool, true, false, if◌then◌else◌,
  Bool-cases, inl, inr, List, [], ◌∷◌, length,
}
use os_learning.Memory.{Mem, ok}
use os_learning.KHeap.{State}
use os_learning.KHeap.Api.{validate}
use os_learning.KHeap.Layout.{Block, Layout, holes, used, Coalesced}
use os_learning.KHeap.Invariant.{Range, IsHeap, hole_of}
use os_learning.KHeap.Validate.{validate-IsHeap}
use os_learning.KHeap.Session.{IsSound}

holes-few :
    (before : Bool) (start : ℕ) (bs : List Block)
    → Coalesced before bs
    → (length (holes start bs) + (if before then 1 else 0) ≤ suc (length (used start bs)))
      × (length bs ≡ length (holes start bs) + length (used start bs))
holes-few true start [] c = (omega arith, omega arith)
holes-few false start [] c = (omega arith, omega arith)
holes-few before start (b ∷ bs) c =
    let (few, all) = holes-few b.free (start + 17 + b.size) bs c.1 in
    elim (Bool-cases b.free) [
      | inl hole ↦ elim (Bool-cases before) [
        | inl touching ↦ absurd (let e = c.0 touching in cc)
        | inr apart ↦
            let few' : length (holes (start + 17 + b.size) bs) + 1
                ≤ suc (length (used (start + 17 + b.size) bs)) =
              rw hole at few in
            (rw (hole, apart) (omega arith), rw hole (omega arith))
      ]
      | inr taken ↦
          let few' : length (holes (start + 17 + b.size) bs) + 0
              ≤ suc (length (used (start + 17 + b.size) bs)) =
            rw taken at few in
          elim (Bool-cases before) [
            | inl touching ↦ (rw (taken, touching) (omega arith), rw taken (omega arith))
            | inr apart ↦ (rw (taken, apart) (omega arith), rw taken (omega arith))
          ]
    ]

-- The index has at most one hole more than there are pointers.
pub IsSound-room :
    (r : Range) (s : State) (live : List ℕ)
    → IsSound r s live
    → s.heap.index.size ≤ suc (length live)
IsSound-room r s live v =
    omega
      (arith, (holes-few false r.start v.blocks v.heap.coalesced).0, v.number, v.heap.listed.sized)

-- The walk over the blocks takes no more than two rounds for each pointer and two more.
pub IsSound-validate :
    (r : Range) (s : State) (live : List ℕ) (fuel : ℕ)
    → IsSound r s live
    → length live + length live + 2 ≤ fuel
    → validate fuel s ≡ ok (length live)
IsSound-validate r s live fuel v enough =
    let (few, all) = holes-few false r.start v.blocks v.heap.coalesced in
    rw v.number
      (validate-IsHeap (record r { end = v.end }) s v.blocks fuel v.heap (omega (arith, v.number)))

-- Blocks of which none is in use are one hole.
one_hole :
    (m : Mem) (start end : ℕ) (bs : List Block)
    → Coalesced false bs
    → Layout m start bs end
    → start < end
    → length (used start bs) ≡ 0
    → (n : ℕ) × (bs ≡ hole_of n ∷ [])
one_hole m start end [] c l lt none = absurd (omega (arith, l))
one_hole m start end (b ∷ bs) c l lt none = elim (Bool-cases b.free) [
  | inr taken ↦
      let some_used : suc (length (used (start + 17 + b.size) bs)) ≡ 0 = rw taken at none in
      absurd (omega arith)
  | inl hole ↦ (
    b.size,
    ap (λ rest. b ∷ rest) (last bs (subst (λ f. Coalesced f bs) hole c.1) (rw hole at none))
        ∙ ap (λ f. record { size = b.size; free = f } ∷ []) hole,
  )
]
  where
    last :
        (rest : List Block)
        → Coalesced true rest
        → length (used (start + 17 + b.size) rest) ≡ 0
        → rest ≡ []
    last [] c' none' = refl
    last (d ∷ rest) c' none' =
        let taken : d.free ≡ false = c'.0 refl in
        let some_used : suc (length (used (start + 17 + b.size + 17 + d.size) rest)) ≡ 0 =
          rw taken at none' in
        absurd (omega arith)

pub IsSound-one_hole :
    (r : Range) (s : State) (v : IsSound r s [])
    → (n : ℕ) × IsHeap (record r { end = v.end }) s (hole_of n ∷ [])
IsSound-one_hole r s v =
    let (n, e) =
      one_hole s.mem r.start v.end v.blocks v.heap.coalesced v.heap.layout v.heap.placed.nonempty
        (sym v.number) in
    (n, subst (IsHeap (record r { end = v.end }) s) e v.heap)

-- ===== src/KHeap/Bounds.antt =====
-- `find_hole`: the loop over page boundaries ends, and what it returns fits the hole.
use os_learning.Base.{
  ℕ, zero, suc, ◌+◌, ◌*◌, ◌%◌, ◌^◌, ◌≤◌, ◌<◌, ◌≡◌, refl, subst, inl, inr, Bool, true, false, arith,
  ltb, leb, Bool-cases, Option, none, some,
}
use native.Mathlib.Decide.{dec_lt}
use os_learning.OrderedArray
use os_learning.Memory.{Mem, add32, sub32, Run, ok, ◌>>=◌}
use os_learning.KHeap.{State, size_of, align_to_page, block_meta_size, header_size}
use os_learning.KHeap.Grow.{align_to_page_lem}
use os_learning.KHeap.Find.{find_aligned, try_hole, find_loop, find_hole}

-- A position in a hole of `hole_size` bytes of data at `start`: the request fits behind it, and for
-- a page-aligned request a hole of its own fits in front.
pub record Fits (start hole_size size : ℕ) (page_align : Bool) (alloc_pos : ℕ) : Type 0 where
  pub from : start ≤ alloc_pos
  pub to : alloc_pos + size ≤ start + hole_size
  pub exact : page_align ≡ false → alloc_pos ≡ start
  pub aligned : page_align ≡ true → alloc_pos % 4096 ≡ 0
  pub front : page_align ≡ true → start + block_meta_size < alloc_pos

-- What one hole gives: never a PANIC, never the end of the fuel.
pub data Tried (start hole_size size : ℕ) (page_align : Bool) : Run (Option ℕ) → Type 0 where
  fits :
      (p : ℕ)
      → Fits start hole_size size page_align p
      → Tried start hole_size size page_align (ok (some p))
  too_small :
      ((p : ℕ) → ¬ (Fits start hole_size size page_align p))
      → Tried start hole_size size page_align (ok none)

module _ (start hole_size size : ℕ) (small : start + hole_size + size + 8192 < 2 ^ 32) where
  -- No position before `next` serves.
  abbrev Settled : ℕ → Type 0
  Settled next = (p : ℕ) → Fits start hole_size size true p → next ≤ p

  Fits-of_gap :
      (next : ℕ)
      → start ≤ next
      → next ≤ start + 4096 + block_meta_size
      → next % 4096 ≡ 0
      → next + size ≤ start + hole_size
      → start + block_meta_size < next
      → Fits start hole_size size true next
  Fits-of_gap next ge near page room gap = record {
    from = ge;
    to = room;
    exact = λ e. cc;
    aligned = λ e. page;
    front = λ e. gap;
  }

  find_aligned-Tried :
      (fuel next : ℕ)
      → start ≤ next
      → next ≤ start + 4096 + block_meta_size
      → next % 4096 ≡ 0
      → start + block_meta_size < next + 4096 * fuel
      → Settled next
      → Tried start hole_size size true
          (find_aligned (suc fuel) start (start + hole_size) size next)
  unfolding find_aligned
  find_aligned-Tried zero next ge near page enough settled =
      elim (Bool-cases (leb (add32 next size) (start + hole_size))) [
        | inr over ↦ rw over (too_small (λ p f. absurd (ground (arith, settled p f, f.to))))
        | inl room ↦
            let gap : ltb block_meta_size (sub32 next start) ≡ true = ground arith in
            rw (room, gap) (fits next (Fits-of_gap next ge near page (ground arith) (ground arith)))
      ]
  find_aligned-Tried (suc fuel) next ge near page enough settled =
      elim (Bool-cases (leb (add32 next size) (start + hole_size))) [
        | inr over ↦ rw over (too_small (λ p f. absurd (ground (arith, settled p f, f.to))))
        | inl room ↦ rw room (elim (Bool-cases (ltb block_meta_size (sub32 next start))) [
          | inl gap ↦
              rw gap (fits next (Fits-of_gap next ge near page (ground arith) (ground arith)))
          | inr tight ↦
              let close : next ≤ start + block_meta_size = ground arith in
              let e : add32 next 4096 ≡ next + 4096 = omega arith in
              rw (tight, e)
                (find_aligned-Tried fuel (next + 4096) (omega arith) (omega arith) (omega arith)
                  (omega arith) (λ p f. omega (arith, settled p f, f.aligned refl, f.front refl)))
        ])
      ]

  -- A page-aligned request in one hole.
  try_hole-aligned :
      (m : Mem) (header : ℕ)
      → add32 header header_size ≡ start
      → size_of m header ≡ hole_size
      → Tried start hole_size size true (try_hole m size true header)
  unfolding try_hole
  try_hole-aligned m header at sized =
      let e : add32 start hole_size ≡ start + hole_size = omega arith in
      rw (at, sized, e)
        (find_aligned-Tried 2 (align_to_page start) (omega (arith, up)) (omega (arith, up))
          (omega (arith, up)) (omega (arith, up))
          (λ p f. omega (arith, up, f.aligned refl, f.from)))
    where
      up :
          (align_to_page start % 4096 ≡ 0)
          × (start ≤ align_to_page start)
          × (align_to_page start < start + 4096)
      up = elim (align_to_page_lem start (omega arith)) [
        | inl (_, m, lo, hi) ↦ (m, lo, hi)
        | inr (big, _) ↦ absurd (omega (arith, big))
      ]

  -- A plain request in one hole.
  try_hole-plain :
      (m : Mem) (header : ℕ)
      → add32 header header_size ≡ start
      → size_of m header ≡ hole_size
      → Tried start hole_size size false (try_hole m size false header)
  unfolding try_hole
  try_hole-plain m header at sized =
      rw (at, sized)
        (elim (Bool-cases (leb size hole_size)) [
          | inl room ↦ rw room (
              fits start (record {
                from = omega arith;
                to = ground arith;
                exact = λ e. refl;
                aligned = λ e. cc;
                front = λ e. cc;
              }))
          | inr small_hole ↦
              rw small_hole (too_small (λ p f. absurd (ground (arith, f.to, f.from))))
        ])

-- What `find_hole` returns: a slot of the index and a position that fits that hole, where no slot
-- before it has a hole that fits; or nothing, and no hole fits.
pub data Searched (s : State) (size : ℕ) (page_align : Bool) (from : ℕ)
    : Run (Option (ℕ × ℕ)) → Type 0 where
  found :
      (i alloc_pos : ℕ)
      → from ≤ i
      → i < s.heap.index.size
      → Fits
          (s.heap.index.array i + header_size)
          (size_of s.mem (s.heap.index.array i))
          size
          page_align
          alloc_pos
      → ((j p : ℕ)
          → from ≤ j
          → j < i
          → ¬ (
              Fits
                (s.heap.index.array j + header_size)
                (size_of s.mem (s.heap.index.array j))
                size
                page_align
                p))
      → Searched s size page_align from (ok (some (i, alloc_pos)))
  nothing_fits :
      ((j p : ℕ)
        → from ≤ j
        → j < s.heap.index.size
        → ¬ (
            Fits
              (s.heap.index.array j + header_size)
              (size_of s.mem (s.heap.index.array j))
              size
              page_align
              p))
      → Searched s size page_align from (ok none)

-- Every hole of the index lies, with room for the request behind it, below 2 ^ 32.
abbrev pub AreLow : State → ℕ → Type 0
AreLow s size =
    (i : ℕ)
    → i < s.heap.index.size
    → s.heap.index.array i + header_size + size_of s.mem (s.heap.index.array i) + size + 8192
      < 2 ^ 32

module _ (s : State) (size : ℕ) (low : AreLow s size) where
  try_slot :
      (page_align : Bool) (i : ℕ)
      → i < s.heap.index.size
      → Tried
          (s.heap.index.array i + header_size)
          (size_of s.mem (s.heap.index.array i))
          size
          page_align
          (try_hole s.mem size page_align (OrderedArray.get s.heap.index i))
  unfolding OrderedArray.get
  try_slot true i h =
      let inside : leb s.heap.index.size i ≡ false = ground arith in
      rw inside (
        try_hole-aligned (s.heap.index.array i + header_size) (size_of s.mem (s.heap.index.array i))
          size (low i h) s.mem (s.heap.index.array i) (omega (arith, low i h)) refl)
  try_slot false i h =
      let inside : leb s.heap.index.size i ≡ false = ground arith in
      rw inside (
        try_hole-plain (s.heap.index.array i + header_size) (size_of s.mem (s.heap.index.array i))
          size (low i h) s.mem (s.heap.index.array i) (omega (arith, low i h)) refl)

  Searched-later :
      (page_align : Bool) (i : ℕ)
      → ((p : ℕ)
          → ¬ (
              Fits
                (s.heap.index.array i + header_size)
                (size_of s.mem (s.heap.index.array i))
                size
                page_align
                p))
      → {r : Run (Option (ℕ × ℕ))} → Searched s size page_align (suc i) r
      → Searched s size page_align i r
  Searched-later page_align i miss (found k p ge lt f before) =
      found k p (omega arith) lt f (λ j q a b. elim (dec_lt i j) [
        | yes after ↦ before j q (omega arith) b
        | no here ↦
            let e : i ≡ j = omega arith in
            subst
              (λ n. ¬ (
                Fits (s.heap.index.array n + header_size) (size_of s.mem (s.heap.index.array n))
                  size page_align q))
              e (miss q)
      ])
  Searched-later page_align i miss (nothing_fits none_fit) = nothing_fits (λ j q a b.
      elim (dec_lt i j) [
        | yes after ↦ none_fit j q (omega arith) b
        | no here ↦
            let e : i ≡ j = omega arith in
            subst
              (λ n. ¬ (
                Fits (s.heap.index.array n + header_size) (size_of s.mem (s.heap.index.array n))
                  size page_align q))
              e (miss q)
      ])

  Searched-step :
      (page_align : Bool) (i : ℕ)
      → i < s.heap.index.size
      → (rest : Run (Option (ℕ × ℕ))) → Searched s size page_align (suc i) rest
      → {r : Run (Option ℕ)}
      → Tried
          (s.heap.index.array i + header_size)
          (size_of s.mem (s.heap.index.array i))
          size
          page_align
          r
      → Searched s size page_align i
          (r >>= λ o. elim o [ none ↦ rest | some alloc_pos ↦ ok (some (i, alloc_pos)) ])
  Searched-step page_align i h rest later (fits p f) =
      found i p (omega arith) h f (λ j q a b. absurd (omega arith))
  Searched-step page_align i h rest later (too_small miss) = Searched-later page_align i miss later

  find_loop-Searched :
      (page_align : Bool) (i left : ℕ)
      → i + left ≡ s.heap.index.size
      → Searched s size page_align i (find_loop s size page_align i left)
  unfolding find_loop
  find_loop-Searched page_align i zero e = nothing_fits (λ j p a b f. omega arith)
  find_loop-Searched page_align i (suc left) e =
      Searched-step page_align i (omega arith) (find_loop s size page_align (suc i) left)
        (find_loop-Searched page_align (suc i) left (omega arith))
        (try_slot page_align i (omega arith))

  -- Where every hole of the index lies, with room for the request and two pages, below 2 ^ 32,
  -- `find_hole` always returns: the first slot of the index whose hole fits the request, with a
  -- position that fits; or nothing, and then no hole of the index fits at any position.
  pub find_hole-Searched :
      (page_align : Bool) → Searched s size page_align 0 (find_hole s size page_align)
  unfolding find_hole
  find_hole-Searched page_align = find_loop-Searched page_align 0 s.heap.index.size (omega arith)

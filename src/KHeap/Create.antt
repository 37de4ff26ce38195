-- ===== src/KHeap/Create.antt =====
-- `create_kheap` makes a heap that is well formed: one hole that takes it all.
use os_learning.Base.{ℕ, ◌+◌, ◌-◌, ◌%◌, ◌^◌, ◌≤◌, ◌<◌, ◌≡◌, refl, arith, [], ◌∷◌}
use os_learning.OrderedArray
use os_learning.OrderedArray.{OrderedArray}
use os_learning.Memory.{Mem, sub32, add32, ok}
use os_learning.KHeap.{State, KHeap, kheap_index_num, create_kheap, index_insert, make_block}
use os_learning.KHeap.Split.{make_block-pos}
use os_learning.KHeap.Invariant.{Range, IsFenced, IsFenced-kept, IsHeap, IsOpen, hole_of}
use os_learning.KHeap.FreeHeap.{IsHeap-close}

-- The blocks lie behind the index's storage.
abbrev pub created : ℕ → ℕ → ℕ → Range
created start end max = record {
  start = start + 0x80000;
  end = end;
  limit = max;
  max_size = kheap_index_num;
}

abbrev record_of : (ℕ → ℕ) → ℕ → ℕ → ℕ → ℕ → ℕ → KHeap
record_of array start end max supervisor readonly = record {
  index = OrderedArray.create array kheap_index_num;
  start_address = start + 0x80000;
  end_address = end;
  size = end - (start + 0x80000);
  max_address = max;
  supervisor = supervisor;
  readonly = readonly;
}

create_kheap-eq :
    (m m' : Mem) (array : ℕ → ℕ) (start end max supervisor readonly : ℕ)
    → start % 4096 ≡ 0
    → end % 4096 ≡ 0
    → start + 0x80000 + 17 < end
    → end < 2 ^ 32
    → make_block m (start + 0x80000) (end - (start + 0x80000) - 17) 1 ≡ ok m'
    → create_kheap m array start end max supervisor readonly
      ≡ ok (record {
        mem = m';
        heap =
            index_insert m' (record_of array start end max supervisor readonly) (start + 0x80000);
      })
unfolding create_kheap
create_kheap-eq m m' array start end max supervisor readonly page page' room low e =
    let first : add32 start 0x80000 ≡ start + 0x80000 = omega arith in
    let total : sub32 end (start + 0x80000) ≡ end - (start + 0x80000) = omega arith in
    let size : sub32 (end - (start + 0x80000)) 17 ≡ end - (start + 0x80000) - 17 = omega arith in
    rw (page, page', first, total, size, e)

-- For a start and an end on page boundaries, with room for the index and one block between them, an
-- end up to the limit and a limit below 2 ^ 32, where neither the word before the blocks nor one
-- between the end and the limit is a magic number: `create_kheap` returns a well-formed heap that
-- is one hole.
pub create_kheap-IsHeap :
    (m : Mem) (array : ℕ → ℕ) (start end max supervisor readonly : ℕ)
    → start % 4096 ≡ 0
    → end % 4096 ≡ 0
    → start + 0x80000 + 17 < end
    → end ≤ max
    → max < 2 ^ 32
    → IsFenced (created start end max) m
    → (s : State) × (create_kheap m array start end max supervisor readonly ≡ ok s)
      × IsHeap (created start end max) s (hole_of (end - (start + 0x80000) - 17) ∷ [])
unfolding OrderedArray.create
create_kheap-IsHeap m array start end max supervisor readonly page page' room within low fence =
    let (m', e, made) =
      make_block-pos m (start + 0x80000) (end - (start + 0x80000) - 17) 1 (omega arith)
        (omega arith) in
    let h : KHeap = record_of array start end max supervisor readonly in
    let opened : IsOpen (created start end max) (record { mem = m'; heap = h }) [] (start + 0x80000)
        (end - (start + 0x80000) - 17) [] =
      record {
        placed = record {
          starts = refl;
          ends = refl;
          limits = refl;
          sized = omega arith;
          storage = refl;
          low = omega arith;
          high = omega arith;
          within = within;
          nonempty = omega arith;
        };
        fenced =
            IsFenced-kept (created start end max) m m' (omega arith)
              (λ x l. made.others x (omega arith)) (λ x l. made.others x (omega arith)) fence;
        before = refl;
        block = made.block;
        pos = omega arith;
        behind = omega arith;
        listed = record { counts = λ x. refl; sized = refl };
      } in
    (
      record { mem = m'; heap = index_insert m' h (start + 0x80000) },
      create_kheap-eq m m' array start end max supervisor readonly page page' room (omega arith) e,
      IsHeap-close (created start end max) (record { mem = m'; heap = h }) [] (start + 0x80000)
          (end - (start + 0x80000) - 17) [] opened (omega arith) tt refl tt,
    )

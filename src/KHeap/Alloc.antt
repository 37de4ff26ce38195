-- ===== src/KHeap/Alloc.antt =====
-- `alloc`: take the hole that was found, cutting what is left over, or grow the heap and try again.
use os_learning.Base.{
  ℕ, zero, suc, ◌+◌, ◌%◌, ◌^◌, Bool, not, none, some, ltb, leb, ◌==◌, if◌then◌else◌,
}
use os_learning.OrderedArray
use os_learning.Memory.{add32, sub32, Run, ok, out_of_fuel, ◌>>=◌, ◌>>◌, assert}
use os_learning.KHeap.{
  State, kheap_magic, header_size, footer_size, block_meta_size, magic_of, is_hole_of, size_of,
  header_of, make_block, index_insert, index_remove, expand,
}
use os_learning.KHeap.Find.{find_hole}

-- No hole fits: the heap grows, and the last hole with it.
unfoldable pub grow : State → ℕ → Run State
grow s size = do
  let old_end = s.heap.end_address
  (h, extended) ← expand s.heap (add32 size block_meta_size)
  let last_header = header_of s.mem (sub32 old_end footer_size)
  if not (is_hole_of s.mem last_header == 0)
      then (do
        m ← make_block s.mem last_header (add32 (size_of s.mem last_header) extended) 1
        h' ← index_remove h last_header
        ok (record { mem = m; heap = index_insert m h' last_header }))
      else (do
        m ← make_block s.mem old_end (sub32 extended block_meta_size) 1
        ok (record { mem = m; heap = index_insert m h old_end }))

-- The space in front of a page-aligned position becomes a hole of its own: the state, the header
-- of what is left, and its size.
unfoldable pub cut_front : State → ℕ → ℕ → ℕ → Run (State × ℕ × ℕ)
cut_front s header block_size alloc_pos =
    let alloc_block_header = sub32 alloc_pos header_size in
    if ltb header alloc_block_header
    then (do
      let cut_block_size = sub32 alloc_block_header header
      assert (ltb block_meta_size cut_block_size)
      m ← make_block s.mem header (sub32 cut_block_size block_meta_size) 1
      ok (
        record { mem = m; heap = index_insert m s.heap header },
        alloc_block_header,
        sub32 block_size cut_block_size,
      ))
    else ok (s, header, block_size)

-- The block at `header` is marked as used, and what is left behind it becomes a hole.
unfoldable pub use_block : State → ℕ → ℕ → ℕ → Run State
use_block s header block_size size = do
  assert (leb size block_size)
  let remain = sub32 block_size size
  if leb remain block_meta_size
      then (do m ← make_block s.mem header block_size 0; ok (record s { mem = m }))
      else (do
        m ← make_block s.mem header size 0
        let rest = (header + block_meta_size + size) % 2 ^ 32
        m' ← make_block m rest (sub32 remain block_meta_size) 1
        ok (record { mem = m'; heap = index_insert m' s.heap rest }))

unfoldable pub take_hole : State → ℕ → Bool → ℕ → ℕ → Run (State × ℕ)
take_hole s size page_align iterator alloc_pos = do
  let header = OrderedArray.get s.heap.index iterator
  assert (magic_of s.mem header == kheap_magic)
  let s1 : State = record s {
    heap = record (s.heap) { index = (OrderedArray.remove s.heap.index iterator).0 };
  }
  let cut = cut_front s1 header (size_of s.mem header) alloc_pos
  (s2, header', block_size) ← if page_align then cut else ok (s1, header, size_of s.mem header)
  s3 ← use_block s2 header' block_size size
  ok (s3, alloc_pos)

unfoldable pub alloc : ℕ → State → ℕ → Bool → Run (State × ℕ)
alloc zero s size page_align = out_of_fuel
alloc (suc fuel) s size page_align =
    assert (ltb 0 size)
    >> (find_hole s size page_align >>= λ found. elim found [
      | some (iterator, alloc_pos) ↦ take_hole s size page_align iterator alloc_pos
      | none ↦ grow s size >>= λ s'. alloc fuel s' size page_align
    ])

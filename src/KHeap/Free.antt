-- ===== src/KHeap/Free.antt =====
-- `free`: the block becomes a hole, and merges with a hole on its right and on its left.
use os_learning.Base.{ℕ, ◌+◌, ◌%◌, ◌^◌, not, ◌&&◌, ◌==◌, if◌then◌else◌, update}
use os_learning.Memory.{add32, sub32, Run, ok, ◌>>=◌, ◌>>◌, assert}
use os_learning.KHeap.{
  State, kheap_magic, header_size, footer_size, block_meta_size, magic_of, is_hole_of, size_of,
  header_of, make_block, index_insert, index_remove,
}

-- The header behind the block is taken for a block's wherever its magic number stands there.
unfoldable pub merge_right : State → ℕ → ℕ → Run State
merge_right s header right_header =
    if (magic_of s.mem right_header == kheap_magic) && not (is_hole_of s.mem right_header == 0)
    then (do
      m ←
          make_block s.mem header
            ((size_of s.mem header + size_of s.mem right_header + block_meta_size) % 2 ^ 32) 1
      h ← index_remove s.heap right_header
      ok (record { mem = m; heap = h }))
    else ok s

-- The state, and the header of the hole.
unfoldable pub merge_left : State → ℕ → Run (State × ℕ)
merge_left s header =
    let left_footer = sub32 header footer_size in
    let left_header = header_of s.mem left_footer in
    if (magic_of s.mem left_footer == kheap_magic) && (is_hole_of s.mem left_header == 1)
    then (do
      m ←
          make_block s.mem left_header
            ((size_of s.mem left_header + size_of s.mem header + block_meta_size) % 2 ^ 32) 1
      h ← index_remove s.heap left_header
      ok (record { mem = m; heap = h }, left_header))
    else ok (s, header)

unfoldable pub free_block : State → ℕ → Run State
free_block s ptr = do
  let header = sub32 ptr header_size
  let footer = add32 ptr (size_of s.mem header)
  assert (magic_of s.mem header == kheap_magic)
  assert (magic_of s.mem footer == kheap_magic)
  let s1 : State = record s { mem = update s.mem (header + 4) 1 }
  s2 ← merge_right s1 header (add32 footer footer_size)
  (s3, new_hole) ← merge_left s2 header
  ok (record s3 { heap = index_insert s3.mem s3.heap new_hole })

unfoldable pub free : State → ℕ → Run State
free s ptr = if ptr == 0 then ok s else free_block s ptr

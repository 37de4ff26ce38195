-- ===== src/KHeap.antt =====
-- The kernel heap, 08.kernel-mm/kernel/mem/kheap.c and include/kheap.h: its records in byte memory.
-- A block is a header of 9 bytes (magic, is_hole, size), the data, and a footer of 8 bytes (magic,
-- the header's address).
pub mod Blocks
pub mod Grow
pub mod Find
pub mod Alloc
pub mod Free
pub mod Api
pub mod Bounds
pub mod Split
pub mod Take
pub mod Serve
pub mod Layout
pub mod Index
pub mod Invariant
pub mod Fuse
pub mod Merge
pub mod MergeLeft
pub mod FreeHeap
pub mod Gap
pub mod TakeHeap
pub mod GrowHeap
pub mod Holes
pub mod AllocHeap
pub mod Validate
pub mod Create
pub mod Live
pub mod Session
pub mod Sound
pub mod Kernel
pub mod Room
pub mod Users
pub mod Killer
pub mod Test
use Prim.Native.Nat.{compare}
use os_learning.Base.{
  ℕ, ◌+◌, ◌-◌, ◌*◌, ◌/◌, ◌%◌, ◌^◌, Bool, true, false, not, Option, none, some, ltb, leb, ◌==◌,
  if◌then◌else◌, update,
}
use os_learning.OrderedArray
use os_learning.OrderedArray.{OrderedArray, Comparator}
use os_learning.Memory.{
  Mem, add32, sub32, read32, write32, Run, ok, panic, out_of_fuel, ◌>>=◌, ◌>>◌, assert,
}

abbrev pub kheap_magic : ℕ
kheap_magic = 0x12345678

abbrev pub kheap_index_num : ℕ
kheap_index_num = 0x20000

abbrev pub kheap_min_size : ℕ
kheap_min_size = 0x300000

abbrev pub kheap_start : ℕ
kheap_start = 0xC0C00000

abbrev pub kheap_max : ℕ
kheap_max = 0xE0000000

-- HEADER_SIZE, FOOTER_SIZE and BLOCK_META_SIZE
abbrev pub header_size : ℕ
header_size = 9

abbrev pub footer_size : ℕ
footer_size = 8

abbrev pub block_meta_size : ℕ
block_meta_size = 17

-- `kheap_t`
pub record KHeap : Type 0 where
  pub index : OrderedArray
  pub start_address : ℕ
  pub end_address : ℕ
  pub size : ℕ
  pub max_address : ℕ
  pub supervisor : ℕ
  pub readonly : ℕ

-- The heap's record and the memory that its blocks lie in.
pub record State : Type 0 where
  pub mem : Mem
  pub heap : KHeap

-- The fields of the header at `a`.
abbrev pub magic_of : Mem → ℕ → ℕ
magic_of m a = read32 m a

abbrev pub is_hole_of : Mem → ℕ → ℕ
is_hole_of m a = m (a + 4)

abbrev pub size_of : Mem → ℕ → ℕ
size_of m a = read32 m (a + 5)

-- The `header` field of the footer at `a`.
abbrev pub header_of : Mem → ℕ → ℕ
header_of m a = read32 m (a + 4)

unfoldable pub align_to_page : ℕ → ℕ
align_to_page num = if not (num % 4096 == 0) then add32 (num / 4096 * 4096) 4096 else num

unfoldable pub make_block : Mem → ℕ → ℕ → ℕ → Run Mem
make_block m start size is_hole = do
  assert (ltb 0 size)
  let block_end = (start + size + block_meta_size) % 2 ^ 32
  let with_magic = write32 m start kheap_magic
  let with_size = write32 with_magic (start + 5) size
  let with_header = update with_size (start + 4) is_hole
  let footer = sub32 block_end footer_size
  ok (write32 (write32 with_header footer kheap_magic) (footer + 4) start)

-- `kheap_block_comparator` over the headers in memory
unfoldable pub block_comparator : Mem → Comparator
block_comparator m x y = compare (size_of m x) (size_of m y)

-- `ordered_array_insert(&this->index, item)`; the code drops its result.
unfoldable pub index_insert : Mem → KHeap → ℕ → KHeap
index_insert m h item = record h {
  index = (OrderedArray.insert (block_comparator m) h.index item).0;
}

-- `ordered_array_remove_element` with the ASSERT behind it
unfoldable pub index_remove : KHeap → ℕ → Run KHeap
index_remove h item =
    let r = OrderedArray.remove_element h.index item in
    assert (not (r.1 == 0)) >> ok (record h { index = r.0 })

unfoldable pub expand : KHeap → ℕ → Run (KHeap × ℕ)
expand h expand_size =
    let aligned = align_to_page expand_size in
    if aligned == 0
    then ok (h, 0)
    else let new_end = add32 h.end_address aligned in
      assert (leb new_end h.max_address)
      >> ok (record h { end_address = new_end; size = add32 h.size aligned }, aligned)

unfoldable pub contract : KHeap → ℕ → KHeap × ℕ
contract h contract_size =
    let aligned = align_to_page contract_size in
    if aligned == 0
    then (h, 0)
    else let cut = sub32 h.size aligned in
      let new_size = if ltb cut kheap_min_size then kheap_min_size else cut in
      (record h { size = new_size; end_address = add32 h.start_address new_size }, new_size)

-- `array` is what the memory at `start` holds. The index takes the first 512 KiB.
unfoldable pub create_kheap : Mem → (ℕ → ℕ) → ℕ → ℕ → ℕ → ℕ → ℕ → Run State
create_kheap m array start end max supervisor readonly = do
  assert (start % 4096 == 0)
  assert (end % 4096 == 0)
  let first = add32 start (4 * kheap_index_num)
  let h : KHeap = record {
    index = OrderedArray.create array kheap_index_num;
    start_address = first;
    end_address = end;
    size = sub32 end first;
    max_address = max;
    supervisor = supervisor;
    readonly = readonly;
  }
  m' ← make_block m first (sub32 (sub32 end first) block_meta_size) 1
  ok (record { mem = m'; heap = index_insert m' h first })

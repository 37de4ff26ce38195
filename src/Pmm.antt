-- ===== src/Pmm.antt =====
-- The physical memory manager, 08.kernel-mm/kernel/mem/pmm.c: a bitmap of pages, its counters, and
-- next-fit allocation. The static variables are the fields of `Pmm`; the array `pmm_bitmap` is a
-- function of the byte's index.
pub mod Bitmap
pub mod Count
pub mod Alloc
pub mod Free
pub mod Region
pub mod Init
pub mod Dump
pub mod Listing
use os_learning.Base.{
  ℕ, zero, suc, ◌+◌, ◌-◌, ◌*◌, ◌/◌, ◌%◌, ◌^◌, min, Bool, true, false, not, ◌&&◌, ◌||◌, Option, none,
  some, ltb, leb, ◌==◌, if◌then◌else◌, update,
}
use os_learning.Base.Bits.{byte_set, byte_clear, byte_test}

abbrev pub page_size : ℕ
page_size = 4096

abbrev pub max_bitmap_size_bytes : ℕ
max_bitmap_size_bytes = 128 * 1024

abbrev pub low_memory_size : ℕ
low_memory_size = 2 * (1024 * 1024)

-- LOW_MEMORY_SIZE / PAGE_SIZE
abbrev pub low_pages : ℕ
low_pages = 512

pub record Pmm : Type 0 where
  pub bitmap : ℕ → ℕ
  pub bitmap_size_bytes : ℕ
  pub total_pages : ℕ
  pub max_ram_page : ℕ
  pub free_pages : ℕ
  pub last_alloc_index : ℕ

unfoldable pub set_bit : (ℕ → ℕ) → ℕ → ℕ → ℕ
set_bit bitmap bit = update bitmap (bit / 8) (byte_set (bitmap (bit / 8)) (bit % 8))

unfoldable pub clear_bit : (ℕ → ℕ) → ℕ → ℕ → ℕ
clear_bit bitmap bit = update bitmap (bit / 8) (byte_clear (bitmap (bit / 8)) (bit % 8))

unfoldable pub test_bit : (ℕ → ℕ) → ℕ → Bool
test_bit bitmap bit = byte_test (bitmap (bit / 8)) (bit % 8)

-- `pmm_set_bit(p); pmm_free_pages--;`
unfoldable pub take_page : Pmm → ℕ → Pmm
take_page s p = record s {
  bitmap = set_bit s.bitmap p;
  free_pages = (s.free_pages + (2 ^ 32 - 1)) % 2 ^ 32;
}

-- The loop of `pmm_mark_region_used` from page `p`, with the rounds that are left.
unfoldable pub mark_pages : Pmm → ℕ → ℕ → Pmm
mark_pages s p zero = s
mark_pages s p (suc rounds) =
    mark_pages (if test_bit s.bitmap p then s else take_page s p) (p + 1) rounds

-- The page behind the region, `MIN((end_addr + PAGE_SIZE - 1) / PAGE_SIZE, pmm_total_pages)`.
unfoldable pub end_page : Pmm → ℕ → ℕ → ℕ
end_page s start_paddr size =
    min (((start_paddr + size) % 2 ^ 64 + 4095) % 2 ^ 64 / 4096) s.total_pages % 2 ^ 32

unfoldable pub mark_region_used : Pmm → ℕ → ℕ → Pmm
unfolding end_page mark_pages take_page
mark_region_used s start_paddr size =
    if leb s.total_pages (start_paddr / 4096)
    then s
    else let start_page = start_paddr / 4096 % 2 ^ 32 in
      mark_pages s start_page (end_page s start_paddr size - start_page)

-- What the search of `pmm_alloc_page` stops at.
unfoldable pub eligible : Pmm → ℕ → Bool
eligible s i = leb low_pages i && not (test_bit s.bitmap i)

-- The `do … while (i != start)` of `pmm_alloc_page`; `none` means that the fuel ran out.
unfoldable pub alloc_loop : ℕ → Pmm → ℕ → ℕ → Option (Pmm × ℕ)
alloc_loop zero s start i = none
alloc_loop (suc fuel) s start i =
    let next = (i + 1) % 2 ^ 32 % s.max_ram_page in
    let rest = alloc_loop fuel s start next in
    if eligible s i
    then some (record (take_page s i) { last_alloc_index = i }, i * 4096 % 2 ^ 32)
    else if next == start
    then some (s, 0)
    else rest

-- The loop makes at most `pmm_max_ram_page` rounds.
unfoldable pub alloc_page : Pmm → Option (Pmm × ℕ)
unfolding alloc_loop eligible take_page
alloc_page s =
    if (s.free_pages == 0) || (s.max_ram_page == 0)
    then some (s, 0)
    else let start = s.last_alloc_index % s.max_ram_page in alloc_loop s.max_ram_page s start start

unfoldable pub free_page : Pmm → ℕ → Pmm
free_page s paddr =
    let page = paddr / 4096 in
    if not (paddr % 4096 == 0)
    then s
    else if ltb page low_pages || leb s.max_ram_page page
    then s
    else if not (test_bit s.bitmap page)
    then s
    else record s { bitmap = clear_bit s.bitmap page; free_pages = (s.free_pages + 1) % 2 ^ 32 }

unfoldable pub get_free_page_count : Pmm → ℕ
get_free_page_count s = s.free_pages

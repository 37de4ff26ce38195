-- ===== src/Pmm/Init.antt =====
-- `pmm_init`: the limits from the E820 map, the cleared bitmap, and the regions that are locked.
-- `none` is a PANIC.
pub mod Limits
pub mod Reserve
pub mod Boot
use os_learning.Base.{
  ℕ, zero, suc, ◌+◌, ◌/◌, ◌%◌, ◌^◌, Bool, Option, none, some, not, ltb, ◌==◌, if◌then◌else◌,
}
use os_learning.BootInfo.{BootInfo, E820Entry, boot_info_magic}
use os_learning.Pmm.{Pmm, mark_region_used, max_bitmap_size_bytes, low_memory_size}

unfoldable pub entry_end : E820Entry → ℕ
entry_end e = (e.addr + e.size) % 2 ^ 64

-- The loop over all entries from index `i`, with the rounds that are left.
unfoldable pub max_phys_loop : (ℕ → E820Entry) → ℕ → ℕ → ℕ → ℕ
unfolding entry_end
max_phys_loop e820_map i zero max_phys_addr = max_phys_addr
max_phys_loop e820_map i (suc rounds) max_phys_addr =
    let e = entry_end (e820_map i) in
    max_phys_loop e820_map (i + 1) rounds (if ltb max_phys_addr e then e else max_phys_addr)

-- The loop over the RAM entries.
unfoldable pub max_ram_loop : (ℕ → E820Entry) → ℕ → ℕ → ℕ → ℕ
unfolding entry_end
max_ram_loop e820_map i zero max_ram_addr = max_ram_addr
max_ram_loop e820_map i (suc rounds) max_ram_addr =
    let e = entry_end (e820_map i) in
    max_ram_loop e820_map (i + 1) rounds (
      if (e820_map i).type == 1
      then (if ltb max_ram_addr e then e else max_ram_addr)
      else max_ram_addr)

-- The loop that locks what is not RAM.
unfoldable pub reserve_loop : (ℕ → E820Entry) → ℕ → ℕ → Pmm → Pmm
reserve_loop e820_map i zero s = s
reserve_loop e820_map i (suc rounds) s =
    reserve_loop e820_map (i + 1) rounds
      (if (e820_map i).type == 1 then s else mark_region_used s (e820_map i).addr (e820_map i).size)

-- Steps 3 and 5: the limits are set, and `memset` makes every page free.
unfoldable pub reset : BootInfo → Pmm → Pmm
unfolding max_phys_loop max_ram_loop
reset b s =
    let total = max_phys_loop b.e820_map 0 b.e820_count 0 / 4096 % 2 ^ 32 in
    let bytes = (total + 7) % 2 ^ 32 / 8 in
    record s {
      bitmap = λ i. if ltb i bytes then 0 else s.bitmap i;
      bitmap_size_bytes = bytes;
      total_pages = total;
      max_ram_page = max_ram_loop b.e820_map 0 b.e820_count 0 / 4096 % 2 ^ 32;
      free_pages = total;
    }

-- Steps 6 to 8.
unfoldable pub lock_regions : BootInfo → Pmm → Pmm
lock_regions b s =
    let reserved = reserve_loop b.e820_map 0 b.e820_count s in
    let k = b.kernel_sections in
    mark_region_used (mark_region_used reserved k.kernel_phys_base k.kernel_size) 0 low_memory_size

unfoldable pub init : BootInfo → Pmm → Option Pmm
init b s =
    if not (b.magic == boot_info_magic)
    then none
    else if ltb max_bitmap_size_bytes (reset b s).bitmap_size_bytes
    then none
    else some (lock_regions b (reset b s))

-- ===== src/Tests/Pages.antt =====
-- The physical memory manager on 514 pages, of which 512 and 513 are free.
use os_learning.Base.{
  ℕ, ◌*◌, ◌/◌, ◌<◌, ◌≡◌, refl, ◌≢◌, true, none, some, arith, ltb, ◌==◌, if◌then◌else◌, ◌⊎◌,
}
use os_learning.Base.Bits.{passes, passes-at, byte_test, byte_set}
use os_learning.BootInfo.{
  BootInfo, E820Entry, KernelSectionInfo, boot_info_init, boot_info_magic, e820_max_entries,
  copy_entries, is_end,
}
use os_learning.BootInfo.Copy.{Copied, boot_info_init-Copied}
use os_learning.Pmm.{
  Pmm, test_bit, alloc_loop, alloc_page, free_page, eligible, take_page, set_bit,
  max_bitmap_size_bytes, get_free_page_count,
}
use os_learning.Pmm.Bitmap.{AreBytes}
use os_learning.Pmm.Count.{IsCounted, IsValid, count_free}
use os_learning.Pmm.Alloc.{AllocOutcome, Allocated-of_eq, alloc_page-AllocOutcome}
use os_learning.Pmm.Free.{IsFreeable, Freed, free_page-Freed, free_page-alloc_page}
use os_learning.Pmm.Init.{init, reset}
use os_learning.Pmm.Init.Limits.{AreSmall}
use os_learning.Pmm.Init.Boot.{Booted, init-Booted}

abbrev low_bitmap : ℕ → ℕ
low_bitmap i = if ltb i 64 then 255 else 0

abbrev pub two_free : Pmm
two_free = record {
  bitmap = low_bitmap;
  bitmap_size_bytes = 65;
  total_pages = 514;
  max_ram_page = 514;
  free_pages = 2;
  last_alloc_index = 511;
}

pub low_bitmap-AreBytes : AreBytes low_bitmap
low_bitmap-AreBytes i = ground arith

two_free-IsCounted : IsCounted two_free
unfolding count_free test_bit byte_test
two_free-IsCounted = record {
  bytes = low_bitmap-AreBytes;
  counted = refl;
  ram = omega arith;
  fits = omega arith;
}

low_bitmap_used : passes (λ p. test_bit low_bitmap p) 512 ≡ true
unfolding passes test_bit byte_test
low_bitmap_used = refl

pub two_free-IsValid : IsValid two_free
two_free-IsValid = record {
  counts = two_free-IsCounted;
  low = λ p h t. passes-at (λ p. test_bit low_bitmap p) 512 p h low_bitmap_used;
}

alloc_page-AllocOutcome_example : AllocOutcome two_free (alloc_page two_free)
alloc_page-AllocOutcome_example = alloc_page-AllocOutcome two_free two_free-IsValid

abbrev one_free : Pmm
one_free = record (take_page two_free 512) { last_alloc_index = 512 }

alloc_two_free : alloc_page two_free ≡ some (one_free, 512 * 4096)
unfolding alloc_page alloc_loop eligible test_bit byte_test
alloc_two_free = refl

free_page-alloc_page_example :
    ((q : ℕ) → test_bit (free_page one_free (512 * 4096)).bitmap q ≡ test_bit two_free.bitmap q)
    × (get_free_page_count (free_page one_free (512 * 4096)) ≡ get_free_page_count two_free)
free_page-alloc_page_example =
    free_page-alloc_page two_free one_free 512 two_free-IsValid alloc_two_free (omega arith)

-- Page 512 is in use after the first allocation, and page 513 is free.
one_free-IsValid : IsValid one_free
one_free-IsValid =
    (Allocated-of_eq two_free one_free 512 two_free-IsValid alloc_two_free (omega arith)).1

page_512-IsFreeable : IsFreeable one_free 0x200000
unfolding take_page set_bit test_bit byte_test byte_set
page_512-IsFreeable = record { aligned = refl; above = omega arith; ram = omega arith; used = refl }

free_page-Freed_example :
    Freed one_free (free_page one_free 0x200000) (0x200000 / 4096)
    × IsValid (free_page one_free 0x200000)
free_page-Freed_example = free_page-Freed one_free 0x200000 one_free-IsValid page_512-IsFreeable

-- The low memory cannot be freed.
-- 16 MiB of RAM behind a reserved page, with the kernel at 1 MiB.
abbrev entry : ℕ → ℕ → ℕ → E820Entry
entry addr size type = record { addr = addr; size = size; type = type; acpi = 0 }

abbrev machine_map : ℕ → E820Entry
machine_map i =
    if i == 0
    then entry 0 0x9F000 1
    else if i == 1
    then entry 0x9F000 0x1000 2
    else entry 0x100000 0xF00000 1

abbrev pub sections : KernelSectionInfo
sections = record {
  text_start = 0xC0800000;
  text_end = 0xC0804000;
  rodata_start = 0xC0804000;
  rodata_end = 0xC0805000;
  data_start = 0xC0805000;
  data_end = 0xC0806000;
  bss_start = 0xC0806000;
  bss_end = 0xC0828000;
  kernel_end = 0xC0828000;
  kernel_size = 0x28000;
  kernel_phys_base = 0x200000;
  kernel_virt_base = 0xC0800000;
}

abbrev pub machine : BootInfo
machine = record {
  magic = boot_info_magic;
  e820_count = 3;
  e820_map = machine_map;
  kernel_sections = sections;
}

machine-AreSmall : AreSmall machine
machine-AreSmall j h = ground arith

init-Booted_example :
    ((init machine two_free ≡ none)
      × ((machine.magic ≢ boot_info_magic)
          ⊎ (max_bitmap_size_bytes < (reset machine two_free).bitmap_size_bytes)))
    ⊎ ((s' : Pmm) × (init machine two_free ≡ some s')
        × (machine.magic ≡ boot_info_magic)
        × Booted machine s')
init-Booted_example =
    init-Booted machine machine-AreSmall (omega arith) two_free low_bitmap-AreBytes

-- The loader's map, with the zero entry behind its three entries.
abbrev pub loader_map : ℕ → E820Entry
loader_map i = if ltb i 3 then machine_map i else entry 0 0 0

boot_info_init-Copied_example :
    let b' = boot_info_init loader_map sections machine in
    (b'.magic ≡ boot_info_magic)
    × (b'.kernel_sections ≡ sections)
    × Copied loader_map b'.e820_map b'.e820_count e820_max_entries
boot_info_init-Copied_example = boot_info_init-Copied loader_map sections machine

three_copied : (boot_info_init loader_map sections machine).e820_count ≡ 3
unfolding boot_info_init copy_entries is_end
three_copied = refl

-- ===== src/BootInfo.antt =====
-- The boot information, 08.kernel-mm/kernel/mem/boot_info.c and include/boot_info.h. The loader
-- leaves the E820 map at a fixed address; the array there is a function of the entry's index.
pub mod Copy
use os_learning.Base.{ℕ, zero, suc, ◌+◌, Bool, ◌&&◌, ◌==◌, if◌then◌else◌, update}

pub record E820Entry : Type 0 where
  pub addr : ℕ
  pub size : ℕ
  pub type : ℕ
  pub acpi : ℕ

pub record KernelSectionInfo : Type 0 where
  pub text_start : ℕ
  pub text_end : ℕ
  pub rodata_start : ℕ
  pub rodata_end : ℕ
  pub data_start : ℕ
  pub data_end : ℕ
  pub bss_start : ℕ
  pub bss_end : ℕ
  pub kernel_end : ℕ
  pub kernel_size : ℕ
  pub kernel_phys_base : ℕ
  pub kernel_virt_base : ℕ

pub record BootInfo : Type 0 where
  pub magic : ℕ
  pub e820_count : ℕ
  pub e820_map : ℕ → E820Entry
  pub kernel_sections : KernelSectionInfo

abbrev pub boot_info_magic : ℕ
boot_info_magic = 0x1BADB002

abbrev pub e820_max_entries : ℕ
e820_max_entries = 128

-- The entry that ends the loader's map.
unfoldable pub is_end : E820Entry → Bool
is_end e = e.addr == 0 && (e.size == 0 && e.type == 0)

-- The loop of `boot_info_init` at `count`, with the rounds that are left: the entries copied, and
-- how many.
unfoldable pub copy_entries : (ℕ → E820Entry) → (ℕ → E820Entry) → ℕ → ℕ → (ℕ → E820Entry) × ℕ
unfolding is_end
copy_entries buffer e820_map count zero = (e820_map, count)
copy_entries buffer e820_map count (suc rounds) =
    let rest = copy_entries buffer (update e820_map count (buffer count)) (count + 1) rounds in
    if is_end (buffer count) then (e820_map, count) else rest

-- The addresses of the sections are the linker's symbols.
unfoldable pub boot_info_init : (ℕ → E820Entry) → KernelSectionInfo → BootInfo → BootInfo
unfolding copy_entries
boot_info_init buffer sections boot_info =
    let (e820_map, count) = copy_entries buffer boot_info.e820_map 0 e820_max_entries in
    record boot_info {
      magic = boot_info_magic;
      e820_count = count;
      e820_map = e820_map;
      kernel_sections = sections;
    }

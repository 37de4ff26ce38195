-- ===== src/Vmm.antt =====
-- The virtual memory manager, 08.kernel-mm/kernel/mem/vmm.c and include/vmm.h. Page directories and
-- page tables are frames of 1024 entries in physical memory; CR3 names the directory's frame. The
-- kernel reaches them through the window that boot/loader.S maps (directory entry 769 points to the
-- directory itself), so every access of the C code goes through the translation `walk`.
pub mod Entries
pub mod Translate
pub mod Unmap
pub mod Coherent
pub mod Fault
pub mod Demand
use os_learning.Base.{
  ℕ, ◌+◌, ◌-◌, ◌*◌, ◌/◌, ◌%◌, ◌^◌, Bool, true, false, not, ◌&&◌, ◌||◌, Option, none, some, bit_and,
  ltb, ◌==◌, if◌then◌else◌, update,
}
use os_learning.Pmm.{Pmm, alloc_page}

-- `page_table_entry_t`, and `page_directory_entry_t`
pub record Entry : Type 0 where
  pub present : Bool
  pub rw : Bool
  pub user : Bool
  pub writethrough : Bool
  pub cache_disable : Bool
  pub accessed : Bool
  pub dirty : Bool
  pub pat : Bool
  pub global : Bool
  pub avail : ℕ
  pub frame_addr : ℕ

-- `(page_table_entry_t){0}`
abbrev pub zero_entry : Entry
zero_entry = record {
  present = false;
  rw = false;
  user = false;
  writethrough = false;
  cache_disable = false;
  accessed = false;
  dirty = false;
  pat = false;
  global = false;
  avail = 0;
  frame_addr = 0;
}

-- What the code reads and writes: CR3 (as a frame), the frames that hold tables, and the
-- translations that the processor has cached, by page number.
pub record Vmm : Type 0 where
  pub directory : ℕ
  pub frames : ℕ → ℕ → Entry
  pub tlb : ℕ → Option ℕ

-- PAGE_DIR_VIRTUAL and PAGE_TABLES_VIRTUAL_ADDR
abbrev pub page_dir_virtual : ℕ
page_dir_virtual = 0xC0701000

abbrev pub page_tables_virtual_addr : ℕ
page_tables_virtual_addr = 0xC0400000

abbrev pub kernel_load_virtual_addr : ℕ
kernel_load_virtual_addr = 0xC0800000

-- `virt_addr >> 22` and `(virt_addr >> 12) & 0x3FF`
abbrev pub dir_index : ℕ → ℕ
dir_index virt_addr = virt_addr / 2 ^ 22

abbrev pub table_index : ℕ → ℕ
table_index virt_addr = virt_addr / 2 ^ 12 % 1024

-- The frame that an access of `virt_addr` reaches.
unfoldable pub walk : Vmm → ℕ → ℕ
walk s virt_addr =
    let table = (s.frames s.directory (dir_index virt_addr)).frame_addr in
    (s.frames table (table_index virt_addr)).frame_addr

-- The translation that the processor makes, `none` for a page fault.
unfoldable pub translate : Vmm → ℕ → Option ℕ
translate s virt_addr =
    let pde = s.frames s.directory (dir_index virt_addr) in
    let pte = s.frames pde.frame_addr (table_index virt_addr) in
    if pde.present && pte.present then some (pte.frame_addr * 4096 + virt_addr % 4096) else none

-- The entry that `get_page` points to, as a frame and an index; `none` is NULL.
unfoldable pub get_page : Vmm → ℕ → Option (ℕ × ℕ)
get_page s virt_addr =
    let page_dir_idx = dir_index virt_addr in
    let pde = s.frames (walk s page_dir_virtual) page_dir_idx in
    if not pde.present
    then none
    else some (walk s (page_tables_virtual_addr + page_dir_idx * 4096), table_index virt_addr)

abbrev pub write_entry : Vmm → ℕ → ℕ → Entry → Vmm
write_entry s frame index e = record s {
  frames = update s.frames frame (update (s.frames frame) index e);
}

unfoldable pub invalidate_page : Vmm → ℕ → Vmm
invalidate_page s addr = record s { tlb = update s.tlb (addr / 4096) none }

-- `flags & bit`, as a condition
abbrev pub has_flag : ℕ → ℕ → Bool
has_flag flags bit = not (bit_and flags bit == 0)

-- `page` after the assignments of `vmm_map_page`
unfoldable pub mapped_entry : Entry → ℕ → ℕ → Entry
mapped_entry e phys_addr flags = record e {
  frame_addr = phys_addr / 2 ^ 12 % 2 ^ 20;
  present = has_flag flags 1;
  rw = has_flag flags 2;
  user = has_flag flags 4;
  writethrough = has_flag flags 8;
  cache_disable = has_flag flags 16;
}

unfoldable pub map_page : Vmm → ℕ → ℕ → ℕ → Vmm × Bool
map_page s virt_addr phys_addr flags = elim (get_page s virt_addr) [
  | none ↦ (s, false)
  | some (f, i) ↦ (
    invalidate_page (write_entry s f i (mapped_entry (s.frames f i) phys_addr flags)) virt_addr,
    true,
  )
]

unfoldable pub unmap_page : Vmm → ℕ → Vmm
unmap_page s virt_addr = elim (get_page s virt_addr) [
  | none ↦ s
  | some (f, i) ↦
      if not (s.frames f i).present
      then s
      else invalidate_page (write_entry s f i zero_entry) virt_addr
]

unfoldable pub get_phys_addr : Vmm → ℕ → ℕ
get_phys_addr s virt_addr = elim (get_page s virt_addr) [
  | none ↦ 0
  | some (f, i) ↦
      if not (s.frames f i).present
      then 0
      else ((s.frames f i).frame_addr * 2 ^ 12 + virt_addr % 4096) % 2 ^ 32
]

-- The two managers together.
pub record Memory : Type 0 where
  pub vmm : Vmm
  pub pmm : Pmm

-- `none` means that the search of `pmm_alloc_page` ran out of fuel.
unfoldable pub alloc_and_map_page : Memory → ℕ → ℕ → Option (Memory × Bool)
alloc_and_map_page m virt_addr flags = elim (alloc_page m.pmm) [
  | none ↦ none
  | some (pmm, new_phys_page) ↦
      if new_phys_page == 0
      then some (record m { pmm = pmm }, false)
      else let (vmm, done) = map_page m.vmm virt_addr new_phys_page flags in
        some (record { vmm = vmm; pmm = pmm }, done)
]

pub data FaultResult : Type 0 where
  resumed : Memory → FaultResult
  panic : FaultResult
  out_of_fuel : FaultResult

-- PAGE_KERNEL_FLAGS
abbrev pub page_kernel_flags : ℕ
page_kernel_flags = 3

-- `faulting_addr` is what CR2 holds.
unfoldable pub page_fault_handler : Memory → ℕ → FaultResult
page_fault_handler m faulting_addr =
    if ltb faulting_addr kernel_load_virtual_addr
    then panic
    else elim (alloc_and_map_page m (faulting_addr / 4096 * 4096) page_kernel_flags) [
      | none ↦ out_of_fuel
      | some (m', done) ↦ if done then resumed m' else panic
    ]

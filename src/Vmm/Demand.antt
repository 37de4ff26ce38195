-- ===== src/Vmm/Demand.antt =====
-- Demand paging, the use of vmm.c's page fault handler: the accesses of memory that the loader's
-- page tables leave without a page.
pub mod Step
pub mod Served
use os_learning.Base.{
  ℕ, ◌+◌, ◌*◌, ◌/◌, ◌%◌, ◌^◌, ◌≤◌, ◌<◌, ◌≡◌, refl, sym, ap, ◌∙◌, ◌≢◌, ◌⊎◌, inl, inr, Bool, true,
  false, arith, ltb, ◌==◌, if◌then◌else◌, Bool-cases, ==_iff, Option, some, none, subst, List, [],
  ◌∷◌, ◌++◌,
}
use os_learning.Memory.{Run, ok, ◌>>=◌}
use os_learning.Pmm.{Pmm, alloc_page, test_bit}
use os_learning.Pmm.Count.{IsValid}
use os_learning.Pmm.Alloc.{Allocated, Exhausted}
use os_learning.Vmm.{
  Vmm, Memory, FaultResult, resumed, panic, out_of_fuel, translate, map_page, alloc_and_map_page,
  page_fault_handler, invalidate_page, dir_index, table_index, kernel_load_virtual_addr,
  page_kernel_flags,
}
use os_learning.Vmm.Entries.{IsSelfMapped, table_frame, get_page-eq}
use os_learning.Vmm.Translate.{OutsideWindow, Apart, HasTable}
use os_learning.Vmm.Fault.{
  Handled, low_address, exhausted, no_table, backed, page_fault_handler-Handled,
}

unfoldable pub resume : FaultResult → Run Memory
resume (resumed m) = ok m
resume panic = Run.panic
resume out_of_fuel = Run.out_of_fuel

-- An access of an address: where the processor finds no translation it runs the page fault handler
-- (vector 14), and the access is made again when that returns.
unfoldable pub access : Memory → ℕ → Run Memory
unfolding resume
access m addr = elim (translate m.vmm addr) [
  | some p ↦ ok m
  | none ↦ resume (page_fault_handler m addr)
]

-- A sequence of accesses, in order.
unfoldable pub access_all : Memory → List ℕ → Run Memory
access_all m [] = ok m
access_all m (addr ∷ addrs) = access m addr >>= λ m'. access_all m' addrs

-- Addresses of a region that lies above the kernel and below 2 ^ 32, and whose tables are there.
unfoldable pub AreIn : ℕ → ℕ → List ℕ → Type 0
AreIn lo hi [] = Unit {0}
AreIn lo hi (addr ∷ addrs) = (lo ≤ addr) × (addr < hi) × AreIn lo hi addrs

pub record HasTables (lo hi : ℕ) (s : Vmm) : Type 0 where
  pub above : kernel_load_virtual_addr ≤ lo
  pub word : hi ≤ 2 ^ 32
  pub table : (addr : ℕ) → lo ≤ addr → addr < hi → HasTable s addr
  pub outside : (addr : ℕ) → lo ≤ addr → addr < hi → OutsideWindow s addr

-- The directory is the same.
pub record SameTables (s s' : Vmm) : Type 0 where
  pub directory : s'.directory ≡ s.directory
  pub entries : (i : ℕ) → s'.frames s.directory i ≡ s.frames s.directory i

-- Every one of the addresses is translated.
unfoldable pub AreBacked : Vmm → List ℕ → Type 0
AreBacked s [] = Unit {0}
AreBacked s (addr ∷ addrs) = (translate s addr ≢ none) × AreBacked s addrs

-- After the accesses: both managers are in order, no translation and no page in use was lost, and
-- every address that was accessed has a page.
pub record Backed (m : Memory) (addrs : List ℕ) (m' : Memory) : Type 0 where
  pub valid : IsValid m'.pmm
  pub self_mapped : IsSelfMapped m'.vmm
  pub same : SameTables m.vmm m'.vmm
  pub kept : (addr p : ℕ) → translate m.vmm addr ≡ some p → translate m'.vmm addr ≡ some p
  pub in_use : (q : ℕ) → test_bit m.pmm.bitmap q ≡ true → test_bit m'.pmm.bitmap q ≡ true
  pub pages : AreBacked m'.vmm addrs

-- An access for which no page of RAM was left.
pub record OutOfPages (m : Memory) (addrs : List ℕ) : Type 0 where
  pub before : List ℕ
  pub addr : ℕ
  pub after : List ℕ
  pub split : addrs ≡ before ++ addr ∷ after
  pub last : Memory
  pub reached : access_all m before ≡ ok last
  pub missing : translate last.vmm addr ≡ none
  pub none_free : Exhausted last.pmm

-- ===== src/Vmm/Fault.antt =====
-- `vmm_alloc_and_map_page` and the page fault handler, over both managers.
use os_learning.Base.{
  ℕ, ◌+◌, ◌*◌, ◌/◌, ◌%◌, ◌^◌, ◌<◌, ◌≡◌, refl, sym, ap, ◌∙◌, ◌≢◌, inl, inr, Bool, false, arith, ltb,
  ltb→lt, ◌==◌, if◌then◌else◌, Bool-cases, Option, some, none, subst,
}
use os_learning.Pmm.{Pmm, alloc_page}
use os_learning.Pmm.Count.{IsValid}
use os_learning.Pmm.Alloc.{Allocated, Exhausted, alloc_page-AllocOutcome}
use os_learning.Vmm.{
  Memory, FaultResult, resumed, panic, out_of_fuel, translate, map_page, alloc_and_map_page,
  page_fault_handler, dir_index, kernel_load_virtual_addr, page_kernel_flags,
}
use os_learning.Vmm.Entries.{IsSelfMapped}
use os_learning.Vmm.Translate.{OutsideWindow, Apart, map_page-Mapped}

-- The handler's three outcomes, one for each cause.
pub data Handled (m : Memory) (faulting_addr : ℕ) : FaultResult → Type 0 where
  -- The address lies below the kernel.
  low_address : faulting_addr < kernel_load_virtual_addr → Handled m faulting_addr panic
  -- No page of RAM is free.
  exhausted : Exhausted m.pmm → Handled m faulting_addr panic
  -- The page table is missing. The page taken from the allocator is not given back.
  no_table :
      (m.vmm.frames m.vmm.directory (dir_index faulting_addr)).present ≡ false
      → Handled m faulting_addr panic
  -- A free page of RAM now backs the page of the address.
  backed :
      (m' : Memory) (p : ℕ)
      → Allocated m.pmm m'.pmm p
      → IsValid m'.pmm
      → translate m'.vmm faulting_addr ≡ some (p * 4096 + faulting_addr % 4096)
      → ((addr : ℕ)
          → Apart m.vmm (faulting_addr / 4096 * 4096) addr
          → translate m'.vmm addr ≡ translate m.vmm addr)
      → IsSelfMapped m'.vmm
      → Handled m faulting_addr (resumed m')

module _ (m : Memory) (virt_addr flags : ℕ) where
  alloc_and_map_page-some :
      (pmm : Pmm) (p : ℕ)
      → alloc_page m.pmm ≡ some (pmm, p * 4096)
      → 0 < p
      → let r = map_page m.vmm virt_addr (p * 4096) flags in
        alloc_and_map_page m virt_addr flags ≡ some (record { vmm = r.0; pmm = pmm }, r.1)
  unfolding alloc_and_map_page
  alloc_and_map_page-some pmm p e pos =
      let nonzero : (p * 4096 == 0) ≡ false = ground arith in rw (e, alloc_and_map_page, nonzero)

  alloc_and_map_page-none :
      alloc_page m.pmm ≡ some (m.pmm, 0) → alloc_and_map_page m virt_addr flags ≡ some (m, false)
  unfolding alloc_and_map_page
  alloc_and_map_page-none e = rw (e, alloc_and_map_page)

module _ (m : Memory) (faulting_addr : ℕ) (valid : IsValid m.pmm) (self : IsSelfMapped m.vmm)
    (word : faulting_addr < 2 ^ 32) (outside : OutsideWindow m.vmm faulting_addr) where
  abbrev aligned : ℕ
  aligned = faulting_addr / 4096 * 4096

  -- The outcome once the two managers have answered.
  abbrev answer : Option (Memory × Bool) → FaultResult
  answer none = out_of_fuel
  answer (some (m', done)) = if done then resumed m' else panic

  Handled-of_page :
      (pmm : Pmm) (p : ℕ)
      → alloc_page m.pmm ≡ some (pmm, p * 4096)
      → Allocated m.pmm pmm p
      → IsValid pmm
      → Handled m faulting_addr (answer (alloc_and_map_page m aligned page_kernel_flags))
  Handled-of_page pmm p e got valid' =
      rw (alloc_and_map_page-some m aligned page_kernel_flags pmm p e (omega (arith, got.above)))
        (elim (map_page-Mapped m.vmm aligned (p * 4096) page_kernel_flags self (omega arith)
          (omega (arith, got.ram, valid.counts.ram, valid.counts.fits)) refl
          (subst (λ d. (m.vmm.frames m.vmm.directory d).frame_addr ≢ m.vmm.directory) same
            outside)) [
              | inl (missing, eq) ↦ rw eq (
                  no_table (
                    subst (λ d. (m.vmm.frames m.vmm.directory d).present ≡ false) (sym same)
                      missing))
              | inr (table, mapped) ↦ rw mapped.done (
                  backed
                    (record {
                      vmm = (map_page m.vmm aligned (p * 4096) page_kernel_flags).0;
                      pmm = pmm;
                    })
                    p got valid'
                    (mapped.translated faulting_addr word (omega arith)
                      ∙ ap (λ n. some (n + faulting_addr % 4096)) (omega arith))
                    mapped.others mapped.self_mapped)
            ])
    where
      same : dir_index faulting_addr ≡ dir_index aligned
      same = omega arith

  -- With a valid page allocator, a directory that maps itself, and a 32-bit address outside the
  -- window of the tables, the page fault handler returns or panics: it panics for an address below
  -- the kernel, when no page of RAM above the low 2 MiB is free, or when the page table is missing;
  -- otherwise a page that was free backs the page of the address, every address with another entry
  -- is translated as before, the allocator is valid and the directory maps itself.
  pub page_fault_handler-Handled : Handled m faulting_addr (page_fault_handler m faulting_addr)
  unfolding page_fault_handler
  page_fault_handler-Handled = elim (Bool-cases (ltb faulting_addr kernel_load_virtual_addr)) [
    | inl low ↦ rw low (low_address (ltb→lt _ _ low))
    | inr high ↦ rw high (elim (alloc_page-AllocOutcome m.pmm valid) [
      | inl (p, pmm, e, got, valid') ↦ Handled-of_page pmm p e got valid'
      | inr (e, full) ↦ rw (alloc_and_map_page-none m aligned page_kernel_flags e) (exhausted full)
    ])
  ]

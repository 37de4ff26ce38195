-- ===== src/Vmm/Demand/Step.antt =====
-- One access, by the page fault handler of vmm.c.
use os_learning.Base.{
  ℕ, ◌*◌, ◌/◌, ◌^◌, ◌≤◌, ◌<◌, ◌≡◌, refl, ap, ◌∙◌, ◌≢◌, ◌⊎◌, inl, inr, arith, ltb, ◌==◌,
  if◌then◌else◌, Bool-cases, ==_iff, Option, some, none, subst, [], ◌∷◌,
}
use os_learning.Memory.{Run, ok}
use os_learning.Pmm.{Pmm, alloc_page}
use os_learning.Pmm.Count.{IsValid}
use os_learning.Pmm.Alloc.{Exhausted}
use os_learning.Vmm.{
  Vmm, Memory, FaultResult, resumed, panic, out_of_fuel, translate, map_page, alloc_and_map_page,
  page_fault_handler, invalidate_page, dir_index, table_index, kernel_load_virtual_addr,
  page_kernel_flags,
}
use os_learning.Vmm.Entries.{IsSelfMapped, table_frame, get_page-eq}
use os_learning.Vmm.Translate.{OutsideWindow, Apart, HasTable}
use os_learning.Vmm.Fault.{
  Handled, low_address, exhausted, no_table, backed, page_fault_handler-Handled,
}
use os_learning.Vmm.Demand.{resume, access, AreBacked, HasTables, SameTables, Backed}

SameTables-map_page :
    (s : Vmm) (virt_addr phys_addr flags : ℕ)
    → IsSelfMapped s
    → virt_addr < 2 ^ 32
    → OutsideWindow s virt_addr
    → SameTables s (map_page s virt_addr phys_addr flags).0
unfolding map_page invalidate_page
SameTables-map_page s virt_addr phys_addr flags self word outside = record {
  directory = ground (arith, get_page-eq s self virt_addr word);
  entries = λ i. ground (arith, get_page-eq s self virt_addr word);
}

pub option_cases : {A : Type 0} (o : Option A) → (o ≡ none) ⊎ ((p : A) × (o ≡ some p))
option_cases none = inl refl
option_cases (some p) = inr (p, refl)

KeepsTables : Memory → FaultResult → Type 0
KeepsTables m (resumed m') = SameTables m.vmm m'.vmm
KeepsTables m panic = Unit {0}
KeepsTables m out_of_fuel = Unit {0}

page_fault_handler-KeepsTables :
    (m : Memory) (addr : ℕ)
    → IsSelfMapped m.vmm
    → addr < 2 ^ 32
    → OutsideWindow m.vmm addr
    → KeepsTables m (page_fault_handler m addr)
unfolding page_fault_handler alloc_and_map_page KeepsTables
page_fault_handler-KeepsTables m addr self word outside =
    elim (Bool-cases (ltb addr kernel_load_virtual_addr)) [
      | inl low ↦ rw low tt
      | inr high ↦ rw high (elim (option_cases (alloc_page m.pmm)) [
        | inl e ↦ rw (alloc_and_map_page, e) tt
        | inr ((pmm, page), e) ↦ elim (Bool-cases (page == 0)) [
          | inl none_free ↦ rw (alloc_and_map_page, e, none_free) tt
          | inr some_free ↦ rw (alloc_and_map_page, e, some_free) (mapped pmm page)
        ]
      ])
    ]
  where
    mapped :
        (pmm : Pmm) (page : ℕ)
        → let r = map_page m.vmm (addr / 4096 * 4096) page page_kernel_flags in
          KeepsTables m (if r.1 then resumed (record { vmm = r.0; pmm = pmm }) else panic)
    mapped pmm page =
        let same : dir_index addr ≡ dir_index (addr / 4096 * 4096) = omega arith in
        let kept =
          SameTables-map_page m.vmm (addr / 4096 * 4096) page page_kernel_flags self (omega arith) (
            subst (λ d. (m.vmm.frames m.vmm.directory d).frame_addr ≢ m.vmm.directory) same
              outside) in
        elim (Bool-cases (map_page m.vmm (addr / 4096 * 4096) page page_kernel_flags).1) [
          | inl done ↦ rw done kept
          | inr failed ↦ rw failed tt
        ]

-- A translation that is there does not share its entry with an address that has none.
Apart-of_fault :
    (s : Vmm) (addr other p : ℕ)
    → HasTable s addr
    → translate s addr ≡ none
    → translate s other ≡ some p
    → Apart s (addr / 4096 * 4096) other
unfolding translate
Apart-of_fault s addr other p table missing found =
    let d : dir_index (addr / 4096 * 4096) ≡ dir_index addr = omega arith in
    let t : table_index (addr / 4096 * 4096) ≡ table_index addr = omega arith in
    let f : table_frame s (addr / 4096 * 4096) ≡ table_frame s addr =
      ap (λ i. (s.frames s.directory i).frame_addr) d in
    elim (Bool-cases (table_frame s addr == table_frame s other)) [
      | inr other_table ↦ inl (λ e. absurd (ground (arith, f, e, other_table)))
      | inl one_table ↦ elim (Bool-cases (table_index addr == table_index other)) [
        | inr other_index ↦ inr (λ e. absurd (ground (arith, t, e, other_index)))
        | inl one_index ↦
            let e = (==_iff (table_frame s addr) (table_frame s other)).0 one_table in
            let e' = (==_iff (table_index addr) (table_index other)).0 one_index in
            absurd (shared e e')
      ]
    ]
  where
    shared : table_frame s addr ≡ table_frame s other → table_index addr ≡ table_index other → ⊥
    shared e e' = ground (arith, table)

module _ (m : Memory) (addr : ℕ) (missing : translate m.vmm addr ≡ none)
    (table : HasTable m.vmm addr) (above : kernel_load_virtual_addr ≤ addr) where
  resume-Backed :
      {r : FaultResult}
      → Handled m addr r
      → KeepsTables m r
      → ((m' : Memory) × (resume r ≡ ok m') × Backed m (addr ∷ []) m')
        ⊎ ((resume r ≡ Run.panic) × Exhausted m.pmm)
  unfolding resume KeepsTables AreBacked
  resume-Backed (low_address low) keeps = absurd (omega (arith, low, above))
  resume-Backed (exhausted full) keeps = inr (refl, full)
  resume-Backed (no_table absent) keeps = absurd (let t = table in cc)
  resume-Backed (backed m' p got valid found others self) keeps = inl (
    m',
    refl,
    record {
      valid = valid;
      self_mapped = self;
      same = keeps;
      kept = λ other q e. others other (Apart-of_fault m.vmm addr other q table missing e) ∙ e;
      in_use = λ q e. ground (arith, got.taken q);
      pages = (λ e. (let f = found in cc), tt);
    },
  )

-- One access of the region: the address has a page behind it then, or no page of RAM was left.
pub access-Outcome :
    (m : Memory) (lo hi addr : ℕ)
    → IsValid m.pmm
    → IsSelfMapped m.vmm
    → HasTables lo hi m.vmm
    → lo ≤ addr
    → addr < hi
    → ((m' : Memory) × (access m addr ≡ ok m') × Backed m (addr ∷ []) m')
      ⊎ ((access m addr ≡ Run.panic) × (translate m.vmm addr ≡ none) × Exhausted m.pmm)
unfolding access AreBacked
access-Outcome m lo hi addr valid self tables low high =
    elim (option_cases (translate m.vmm addr)) [
      | inr (p, found) ↦ inl (
        m,
        rw (access, found) refl,
        record {
          valid = valid;
          self_mapped = self;
          same = record { directory = refl; entries = λ i. refl };
          kept = λ other q e. e;
          in_use = λ q e. e;
          pages = (λ e. (let f = found in cc), tt);
        },
      )
      | inl missing ↦
          let outside = tables.outside addr low high in
          let word : addr < 2 ^ 32 = omega (arith, tables.word) in
          let eq : access m addr ≡ resume (page_fault_handler m addr) = rw (access, missing) refl in
          elim (resume-Backed m addr missing (tables.table addr low high)
            (omega (arith, tables.above))
            (page_fault_handler-Handled m addr valid self word outside)
            (page_fault_handler-KeepsTables m addr self word outside)) [
              | inl (m', e, done) ↦ inl (m', eq ∙ e, done)
              | inr (stopped, full) ↦ inr (eq ∙ stopped, missing, full)
            ]
    ]

-- ===== src/Vmm/Unmap.antt =====
-- `vmm_unmap_page` against the processor's translation.
use os_learning.Base.{
  ℕ, ◌/◌, ◌^◌, ◌<◌, ◌≡◌, refl, ◌≢◌, ◌⊎◌, inl, inr, true, arith, Bool-cases, none,
}
use os_learning.Vmm.{
  Vmm, translate, unmap_page, zero_entry, write_entry, invalidate_page, dir_index, table_index,
}
use os_learning.Vmm.Entries.{IsSelfMapped, table_frame, get_page-eq}
use os_learning.Vmm.Translate.{OutsideWindow, HasTable, Apart}

translate_cases :
    (s : Vmm) (virt_addr : ℕ)
    → (translate s virt_addr ≡ none)
      ⊎ (HasTable s virt_addr
          × ((s.frames (table_frame s virt_addr) (table_index virt_addr)).present ≡ true))
unfolding translate
translate_cases s virt_addr =
    elim (Bool-cases (s.frames s.directory (dir_index virt_addr)).present) [
      | inr missing ↦ inl (rw missing)
      | inl table ↦
          elim (Bool-cases (s.frames (table_frame s virt_addr) (table_index virt_addr)).present) [
            | inr absent ↦ inl (rw (table, absent))
            | inl present ↦ inr (table, present)
          ]
    ]

module _ (s : Vmm) (virt_addr : ℕ) (self : IsSelfMapped s) (word : virt_addr < 2 ^ 32) where
  unmap_page-eq :
      HasTable s virt_addr
      → (s.frames (table_frame s virt_addr) (table_index virt_addr)).present ≡ true
      → unmap_page s virt_addr
        ≡ invalidate_page
            (write_entry s (table_frame s virt_addr) (table_index virt_addr) zero_entry)
            virt_addr
  unfolding unmap_page
  unmap_page-eq table present = ground (arith, get_page-eq s self virt_addr word)

  unmap_page-absent : translate s virt_addr ≡ none → unmap_page s virt_addr ≡ s
  unfolding unmap_page translate
  unmap_page-absent absent = ground (arith, get_page-eq s self virt_addr word)

-- What `vmm_unmap_page` does.
pub record Unmapped (s s' : Vmm) (virt_addr : ℕ) : Type 0 where
  pub gone : (addr : ℕ) → addr / 4096 ≡ virt_addr / 4096 → translate s' addr ≡ none
  pub others : (addr : ℕ) → Apart s virt_addr addr → translate s' addr ≡ translate s addr
  pub self_mapped : IsSelfMapped s'
  pub dropped : (s' ≡ s) ⊎ (s'.tlb (virt_addr / 4096) ≡ none)
  pub tlb_kept : (page : ℕ) → page ≢ virt_addr / 4096 → s'.tlb page ≡ s.tlb page

module _ (s : Vmm) (virt_addr : ℕ) (self : IsSelfMapped s) (word : virt_addr < 2 ^ 32)
    (outside : OutsideWindow s virt_addr) where
  same_page-translate :
      (addr : ℕ)
      → addr / 4096 ≡ virt_addr / 4096
      → translate s virt_addr ≡ none
      → translate s addr ≡ none
  unfolding translate
  same_page-translate addr same absent =
      let d : dir_index addr ≡ dir_index virt_addr = omega arith in
      let t : table_index addr ≡ table_index virt_addr = omega arith in rw (d, t) (ground arith)

  Unmapped-of_absent : translate s virt_addr ≡ none → Unmapped s s virt_addr
  Unmapped-of_absent absent = record {
    gone = λ addr same. same_page-translate addr same absent;
    others = λ addr apart. refl;
    self_mapped = self;
    dropped = inl refl;
    tlb_kept = λ page ne. refl;
  }

  abbrev unmapped : Vmm
  unmapped = write_entry s (table_frame s virt_addr) (table_index virt_addr) zero_entry

  Unmapped-of_present : Unmapped s (invalidate_page unmapped virt_addr) virt_addr
  unfolding translate invalidate_page
  Unmapped-of_present = record {
    gone = λ addr same.
        let d : dir_index addr ≡ dir_index virt_addr = omega arith in
        let t : table_index addr ≡ table_index virt_addr = omega arith in rw (d, t) (ground arith);
    others = λ addr apart. ground arith;
    self_mapped = record {
      self_present = ground (arith, self.self_present);
      self_frame = ground (arith, self.self_frame);
    };
    dropped = inr (ground arith);
    tlb_kept = λ page ne. ground arith;
  }

  -- For a directory that maps itself and a 32-bit address outside the window of the tables: after
  -- `vmm_unmap_page` no address of the page is translated, every address with another entry is
  -- translated as before, the directory still maps itself, the cached translation of the page is
  -- dropped unless nothing was changed, and the other cached translations stay.
  pub unmap_page-Unmapped : Unmapped s (unmap_page s virt_addr) virt_addr
  unmap_page-Unmapped = elim (translate_cases s virt_addr) [
    | inl absent ↦ rw (unmap_page-absent s virt_addr self word absent) (Unmapped-of_absent absent)
    | inr (table, present) ↦
        rw (unmap_page-eq s virt_addr self word table present) Unmapped-of_present
  ]

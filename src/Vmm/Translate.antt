-- ===== src/Vmm/Translate.antt =====
-- `vmm_map_page`, `vmm_unmap_page` and `vmm_get_phys_addr` against the processor's translation.
use os_learning.Base.{
  ℕ, ◌+◌, ◌*◌, ◌/◌, ◌%◌, ◌^◌, ◌<◌, ◌≡◌, ap, ◌≢◌, ◌⊎◌, inl, inr, Bool, true, false, arith, ◌==◌,
  if◌then◌else◌, Bool-cases, Option, some, none,
}
use os_learning.Vmm.{
  Vmm, translate, get_phys_addr, map_page, mapped_entry, write_entry, invalidate_page, has_flag,
  dir_index, table_index,
}
use os_learning.Vmm.Entries.{IsSelfMapped, table_frame, get_page-eq}

-- Every frame number fits an entry's 20 bits.
abbrev pub AreFrames : Vmm → Type 0
AreFrames s = (f i : ℕ) → (s.frames f i).frame_addr < 2 ^ 20

abbrev pub or_zero : Option ℕ → ℕ
or_zero none = 0
or_zero (some n) = n

-- For a directory that maps itself, frame numbers of 20 bits and a 32-bit address,
-- `vmm_get_phys_addr` is the processor's translation, with 0 for a page fault.
pub get_phys_addr-translate :
    (s : Vmm) (virt_addr : ℕ)
    → IsSelfMapped s
    → AreFrames s
    → virt_addr < 2 ^ 32
    → get_phys_addr s virt_addr ≡ or_zero (translate s virt_addr)
unfolding get_phys_addr translate
get_phys_addr-translate s virt_addr self frames h = ground (
  arith,
  get_page-eq s self virt_addr h,
  frames (table_frame s virt_addr) (table_index virt_addr),
)

-- `virt_addr` lies outside the window of the tables, so its entry is no directory entry.
abbrev pub OutsideWindow : Vmm → ℕ → Type 0
OutsideWindow s virt_addr = table_frame s virt_addr ≢ s.directory

-- The table for `virt_addr` is there.
abbrev pub HasTable : Vmm → ℕ → Type 0
HasTable s virt_addr = (s.frames s.directory (dir_index virt_addr)).present ≡ true

-- Another page: its entry is not the entry of `virt_addr`.
abbrev pub Apart : Vmm → ℕ → ℕ → Type 0
Apart s virt_addr other =
    (table_frame s virt_addr ≢ table_frame s other) ⊎ (table_index virt_addr ≢ table_index other)

module _ (s : Vmm) (virt_addr : ℕ) (self : IsSelfMapped s) (word : virt_addr < 2 ^ 32) where
  -- `vmm_map_page` refuses, and changes nothing, where the table is missing.
  pub map_page-missing :
      (phys_addr flags : ℕ)
      → (s.frames s.directory (dir_index virt_addr)).present ≡ false
      → map_page s virt_addr phys_addr flags ≡ (s, false)
  unfolding map_page
  map_page-missing phys_addr flags missing = ground (arith, get_page-eq s self virt_addr word)

  module _ (table : HasTable s virt_addr) where
    map_page-eq :
        (phys_addr flags : ℕ)
        → map_page s virt_addr phys_addr flags ≡ (
          invalidate_page
              (write_entry s (table_frame s virt_addr) (table_index virt_addr) (
                mapped_entry
                  (s.frames (table_frame s virt_addr) (table_index virt_addr))
                  phys_addr
                  flags))
              virt_addr,
          true,
        )
    unfolding map_page
    map_page-eq phys_addr flags = ground (arith, get_page-eq s self virt_addr word)

    module _ (outside : OutsideWindow s virt_addr) (phys_addr flags : ℕ) where
      -- A present mapping is translated to the frame that was given, at the same offset.
      pub translate-map_page :
          (addr : ℕ)
          → addr / 4096 ≡ virt_addr / 4096
          → phys_addr < 2 ^ 32
          → has_flag flags 1 ≡ true
          → translate (map_page s virt_addr phys_addr flags).0 addr
            ≡ some (phys_addr / 4096 * 4096 + addr % 4096)
      unfolding translate mapped_entry invalidate_page
      translate-map_page addr same small present =
          let d : dir_index addr ≡ dir_index virt_addr = omega arith in
          let t : table_index addr ≡ table_index virt_addr = omega arith in
          rw (map_page-eq phys_addr flags, d, t) (ground arith)

      pub tlb-map_page :
          (page : ℕ)
          → (map_page s virt_addr phys_addr flags).0.tlb page
            ≡ (if virt_addr / 4096 == page then none else s.tlb page)
      unfolding invalidate_page
      tlb-map_page page = rw (map_page-eq phys_addr flags)

      pub translate-map_page-Apart :
          (other : ℕ)
          → Apart s virt_addr other
          → translate (map_page s virt_addr phys_addr flags).0 other ≡ translate s other
      unfolding translate mapped_entry invalidate_page
      translate-map_page-Apart other apart = rw (map_page-eq phys_addr flags) (ground arith)

      IsSelfMapped-map_page : IsSelfMapped (map_page s virt_addr phys_addr flags).0
      unfolding invalidate_page
      IsSelfMapped-map_page = rw (map_page-eq phys_addr flags) (record {
        self_present = ground (arith, self.self_present);
        self_frame = ground (arith, self.self_frame);
      })

-- What a successful `vmm_map_page` does.
pub record Mapped (s : Vmm) (virt_addr phys_addr : ℕ) (r : Vmm × Bool) : Type 0 where
  pub done : r.1 ≡ true
  pub translated :
      (addr : ℕ)
      → addr < 2 ^ 32
      → addr / 4096 ≡ virt_addr / 4096
      → translate r.0 addr ≡ some (phys_addr / 4096 * 4096 + addr % 4096)
  pub others : (addr : ℕ) → Apart s virt_addr addr → translate r.0 addr ≡ translate s addr
  pub self_mapped : IsSelfMapped r.0
  pub dropped : r.0.tlb (virt_addr / 4096) ≡ none

-- For a directory that maps itself, 32-bit addresses, the present flag, and a page outside the
-- window of the tables: `vmm_map_page` either finds the page table missing, and then returns false
-- and changes nothing; or the table is there, it returns true, every 32-bit address of the page is
-- translated to its offset in the given frame, every address with another entry is translated as
-- before, the directory still maps itself, and the cached translation of the page is dropped.
pub map_page-Mapped :
    (s : Vmm) (virt_addr phys_addr flags : ℕ)
    → IsSelfMapped s
    → virt_addr < 2 ^ 32
    → phys_addr < 2 ^ 32
    → has_flag flags 1 ≡ true
    → OutsideWindow s virt_addr
    → (((s.frames s.directory (dir_index virt_addr)).present ≡ false)
        × (map_page s virt_addr phys_addr flags ≡ (s, false)))
      ⊎ (HasTable s virt_addr × Mapped s virt_addr phys_addr (map_page s virt_addr phys_addr flags))
map_page-Mapped s virt_addr phys_addr flags self word small present outside =
    elim (Bool-cases (s.frames s.directory (dir_index virt_addr)).present) [
      | inr missing ↦ inl (missing, map_page-missing s virt_addr self word phys_addr flags missing)
      | inl table ↦ inr (
        table,
        record {
          done =
              ap (λ (r : Vmm × Bool). r.1)
                (map_page-eq s virt_addr self word table phys_addr flags);
          translated = λ addr h same.
              translate-map_page s virt_addr self word table outside phys_addr flags addr same small
                present;
          others = λ addr apart.
              translate-map_page-Apart s virt_addr self word table outside phys_addr flags addr
                apart;
          self_mapped = IsSelfMapped-map_page s virt_addr self word table outside phys_addr flags;
          dropped = ground (
            arith,
            tlb-map_page s virt_addr self word table outside phys_addr flags (virt_addr / 4096),
          );
        },
      )
    ]

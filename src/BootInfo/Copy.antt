-- ===== src/BootInfo/Copy.antt =====
-- `boot_info_init`: what the copy of the loader's map holds.
use os_learning.Base.{
  ℕ, zero, suc, ◌+◌, ◌≤◌, ◌<◌, ◌≡◌, refl, ap, ◌⊎◌, inl, inr, true, false, arith, ◌==◌, ==_iff,
  Bool-cases, update, subst,
}
use os_learning.BootInfo.{
  E820Entry, KernelSectionInfo, BootInfo, boot_info_magic, e820_max_entries, is_end, copy_entries,
  boot_info_init,
}

-- The first `count` entries of the buffer, up to the entry that ends it or to the limit.
pub record Copied (buffer e820_map : ℕ → E820Entry) (count limit : ℕ) : Type 0 where
  pub bounded : count ≤ limit
  pub entries : (j : ℕ) → j < count → (e820_map j ≡ buffer j) × (is_end (buffer j) ≡ false)
  pub stopped : (count ≡ limit) ⊎ (is_end (buffer count) ≡ true)

module _ (buffer : ℕ → E820Entry) where
  -- The entries below `count` are copied.
  abbrev Below : (ℕ → E820Entry) → ℕ → Type 0
  Below e820_map count = (j : ℕ) → j < count → (e820_map j ≡ buffer j) × (is_end (buffer j) ≡ false)

  Below-update :
      (e820_map : ℕ → E820Entry) (count : ℕ)
      → Below e820_map count
      → is_end (buffer count) ≡ false
      → Below (update e820_map count (buffer count)) (count + 1)
  Below-update e820_map count below more j h = elim (Bool-cases (count == j)) [
    | inl here ↦
        let e : count ≡ j = (==_iff _ _).0 here in
        (rw here (ap buffer e), subst (λ n. is_end (buffer n) ≡ false) e more)
    | inr other ↦ let before = below j (ground arith) in (rw other before.0, before.1)
  ]

  copy_entries-Copied :
      (e820_map : ℕ → E820Entry) (count rounds limit : ℕ)
      → Below e820_map count
      → count + rounds ≡ limit
      → let r = copy_entries buffer e820_map count rounds in Copied buffer r.0 r.1 limit
  unfolding copy_entries
  copy_entries-Copied e820_map count zero limit below e = record {
    bounded = omega arith;
    entries = below;
    stopped = inl (omega arith);
  }
  copy_entries-Copied e820_map count (suc rounds) limit below e =
      elim (Bool-cases (is_end (buffer count))) [
        | inl last ↦ rw last (record { bounded = omega arith; entries = below; stopped = inr last })
        | inr more ↦ rw more (
            copy_entries-Copied (update e820_map count (buffer count)) (count + 1) rounds limit
              (Below-update e820_map count below more) (omega arith))
      ]

-- `boot_info_init` sets the magic number and the sections, and copies at most 128 entries of the
-- loader's map in order: none of those copied is the zero entry, and either the next one is or
-- there are 128 of them.
pub boot_info_init-Copied :
    (buffer : ℕ → E820Entry) (sections : KernelSectionInfo) (b : BootInfo)
    → let b' = boot_info_init buffer sections b in
      (b'.magic ≡ boot_info_magic)
      × (b'.kernel_sections ≡ sections)
      × Copied buffer b'.e820_map b'.e820_count e820_max_entries
unfolding boot_info_init
boot_info_init-Copied buffer sections b =
    (refl, refl, copy_entries-Copied buffer b.e820_map 0 128 128 (λ j h. absurd (omega arith)) refl)

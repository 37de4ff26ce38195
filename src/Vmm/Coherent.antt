-- ===== src/Vmm/Coherent.antt =====
-- The translation cache: `invlpg` drops what a changed entry made stale.
use os_learning.Base.{
  ℕ, ◌*◌, ◌/◌, ◌^◌, ◌<◌, ◌≡◌, sym, ap, ◌∙◌, ◌≢◌, inl, inr, arith, ◌==◌, Bool-cases, ==_iff, some,
  none, subst,
}
use os_learning.Vmm.{Vmm, translate, map_page, unmap_page, dir_index}
use os_learning.Vmm.Entries.{IsSelfMapped}
use os_learning.Vmm.Translate.{
  OutsideWindow, Apart, map_page-missing, translate-map_page-Apart, tlb-map_page,
}
use os_learning.Vmm.Unmap.{Unmapped, unmap_page-Unmapped}

-- What is cached is what the tables say.
abbrev pub IsCoherent : Vmm → Type 0
IsCoherent s =
    (page f : ℕ) → page < 2 ^ 20 → s.tlb page ≡ some f → translate s (page * 4096) ≡ some (f * 4096)

-- No other page is translated through the entry of `virt_addr`.
abbrev pub IsUnshared : Vmm → ℕ → Type 0
IsUnshared s virt_addr =
    (other : ℕ) → other < 2 ^ 32 → other / 4096 ≢ virt_addr / 4096 → Apart s virt_addr other

module _ (s : Vmm) (virt_addr : ℕ) (self : IsSelfMapped s) (word : virt_addr < 2 ^ 32)
    (outside : OutsideWindow s virt_addr) (unshared : IsUnshared s virt_addr)
    (coherent : IsCoherent s) where
  -- If the directory maps itself, the 32-bit address lies outside the window of the tables, no
  -- other page is translated through its entry, and every cached translation is what the tables
  -- say, then after `vmm_map_page` every cached translation still is.
  pub map_page-IsCoherent :
      (phys_addr flags : ℕ) → IsCoherent (map_page s virt_addr phys_addr flags).0
  map_page-IsCoherent phys_addr flags =
      elim (Bool-cases (s.frames s.directory (dir_index virt_addr)).present) [
        | inr missing ↦ rw (map_page-missing s virt_addr self word phys_addr flags missing) coherent
        | inl table ↦ λ page f small cached.
            let kept = tlb-map_page s virt_addr self word table outside phys_addr flags page in
            let ne : page * 4096 / 4096 ≢ virt_addr / 4096 = ground (arith, kept) in
            translate-map_page-Apart s virt_addr self word table outside phys_addr flags
              (page * 4096) (unshared (page * 4096) (omega arith) ne)
            ∙ coherent page f small (ground (arith, kept))
      ]

  -- If the directory maps itself, the 32-bit address lies outside the window of the tables, no
  -- other page is translated through its entry, and every cached translation is what the tables
  -- say, then after `vmm_unmap_page` every cached translation still is.
  pub unmap_page-IsCoherent : IsCoherent (unmap_page s virt_addr)
  unmap_page-IsCoherent page f small cached = elim un.dropped [
    | inl same ↦
        subst (λ t. translate t (page * 4096) ≡ some (f * 4096)) (sym same)
          (coherent page f small (subst (λ t. t.tlb page ≡ some f) same cached))
    | inr empty ↦ elim (Bool-cases (page == virt_addr / 4096)) [
      | inl here ↦ absurd (some_none (sym cached ∙ ap un'.tlb ((==_iff _ _).0 here) ∙ empty))
      | inr there ↦
          un.others (page * 4096) (unshared (page * 4096) (omega arith) (ground arith))
          ∙ coherent page f small (sym (un.tlb_kept page (ground arith)) ∙ cached)
    ]
  ]
    where
      un' : Vmm
      un' = unmap_page s virt_addr

      un : Unmapped s un' virt_addr
      un = unmap_page-Unmapped s virt_addr self word outside

      some_none : some f ≡ none → ⊥
      some_none e = cc

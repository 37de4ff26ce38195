-- ===== src/Pmm/Init/Boot.antt =====
-- `pmm_init` as a whole: which pages are used once the manager is up.
use os_learning.Base.{
  ℕ, ◌+◌, ◌^◌, ◌<◌, ◌≡◌, refl, sym, ◌∙◌, ◌≢◌, ◌⊎◌, inl, inr, true, false, arith, ltb, ◌==◌,
  Bool-cases, ltb→lt, ==_iff, some, none, subst,
}
use os_learning.BootInfo.{BootInfo, boot_info_magic}
use os_learning.Pmm.{
  Pmm, test_bit, low_pages, low_memory_size, max_bitmap_size_bytes, mark_region_used,
}
use os_learning.Pmm.Bitmap.{AreBytes}
use os_learning.Pmm.Count.{IsValid}
use os_learning.Pmm.Region.{Covers, RegionMarked, mark_region_used-RegionMarked}
use os_learning.Pmm.Init.{init, reset, lock_regions, reserve_loop}
use os_learning.Pmm.Init.Limits.{AreSmall, IsFresh, reset-IsFresh}
use os_learning.Pmm.Init.Reserve.{ReservedBy, Reserved, RegionMarked-kept, reserve_loop-Reserved}

-- The pages that must not be handed out: those of entries that are not RAM, those of the kernel,
-- and the low 2 MiB.
abbrev pub MustLock : BootInfo → ℕ → Type 0
MustLock b p =
    ReservedBy b.e820_map 0 b.e820_count p
    ⊎ Covers b.kernel_sections.kernel_phys_base b.kernel_sections.kernel_size p
    ⊎ (p < low_pages)

pub record Booted (b : BootInfo) (s : Pmm) : Type 0 where
  pub valid : IsValid s
  pub locked : (p : ℕ) → p < s.total_pages → MustLock b p → test_bit s.bitmap p ≡ true
  pub others : (p : ℕ) → p < s.total_pages → ¬ (MustLock b p) → test_bit s.bitmap p ≡ false

module _ (b : BootInfo) (s s1 s2 s3 : Pmm)
    (all_free : (p : ℕ) → p < s.total_pages → test_bit s.bitmap p ≡ false)
    (r : Reserved b.e820_map 0 b.e820_count s s1)
    (m1 : RegionMarked s1 s2 b.kernel_sections.kernel_phys_base b.kernel_sections.kernel_size)
    (m2 : RegionMarked s2 s3 0 low_memory_size) where
  open b.kernel_sections use {kernel_phys_base, kernel_size}

  total1 : s1.total_pages ≡ s3.total_pages
  total1 = sym (m2.total_same ∙ m1.total_same)

  locked_reserved :
      (p : ℕ)
      → p < s3.total_pages
      → ReservedBy b.e820_map 0 b.e820_count p
      → test_bit s3.bitmap p ≡ true
  locked_reserved p h c =
      RegionMarked-kept s2 s3 0 low_memory_size p m2 (omega (arith, m2.total_same)) (
        RegionMarked-kept s1 s2 kernel_phys_base kernel_size p m1 (omega (arith, total1))
          (r.used p (omega (arith, total1, r.total_same)) c))

  locked_kernel :
      (p : ℕ)
      → p < s3.total_pages
      → Covers kernel_phys_base kernel_size p
      → test_bit s3.bitmap p ≡ true
  locked_kernel p h c =
      RegionMarked-kept s2 s3 0 low_memory_size p m2 (omega (arith, m2.total_same))
        (m1.covered p (omega (arith, total1)) c)

  locked_low : (p : ℕ) → p < low_pages → p < s3.total_pages → test_bit s3.bitmap p ≡ true
  locked_low p low h = m2.covered p (omega (arith, m2.total_same)) (omega arith)

  Booted-of_steps : Booted b s3
  Booted-of_steps = record {
    valid = record { counts = m2.counts; low = locked_low };
    locked = λ p h c. elim c [
      | inl reserved ↦ locked_reserved p h reserved
      | inr other ↦ elim other [
        | inl kernel ↦ locked_kernel p h kernel
        | inr low ↦ locked_low p low h
      ]
    ];
    others = λ p h n.
        m2.others p (omega (arith, m2.total_same)) (λ c. n (inr (inr (omega arith))))
        ∙ m1.others p (omega (arith, total1)) (λ c. n (inr (inl c)))
        ∙ r.others p (omega (arith, total1, r.total_same)) (λ c. n (inl c))
        ∙ all_free p (omega (arith, total1, r.total_same));
  }

module _ (b : BootInfo) (small : AreSmall b)
    (kernel_small : b.kernel_sections.kernel_phys_base + b.kernel_sections.kernel_size
      < 2 ^ 43) where
  open b.kernel_sections use {kernel_phys_base, kernel_size}

  lock_regions-Booted : (s : Pmm) → IsFresh s → Booted b (lock_regions b s)
  unfolding lock_regions
  lock_regions-Booted s fresh = Booted-of_steps b s s1 s2 _ fresh.all_free r m1 m2
    where
      s1 : Pmm
      s1 = reserve_loop b.e820_map 0 b.e820_count s

      r : Reserved b.e820_map 0 b.e820_count s s1
      r =
          subst (λ n. Reserved b.e820_map 0 n s s1) (omega arith)
            (reserve_loop-Reserved b.e820_map 0 b.e820_count s fresh.counts
              λ j h. small j (omega arith))

      s2 : Pmm
      s2 = mark_region_used s1 kernel_phys_base kernel_size

      m1 : RegionMarked s1 s2 kernel_phys_base kernel_size
      m1 = mark_region_used-RegionMarked s1 kernel_phys_base kernel_size r.counts (omega arith)

      m2 : RegionMarked s2 (mark_region_used s2 0 low_memory_size) 0 low_memory_size
      m2 = mark_region_used-RegionMarked s2 0 low_memory_size m1.counts (omega arith)

  -- Where no entry of the E820 map and not the kernel reaches 2 ^ 43, and the bitmap holds bytes,
  -- `pmm_init` either panics, and then the magic number is wrong or the bitmap too small; or the
  -- magic number is right and it leaves a valid state in which exactly the managed pages of entries
  -- that are not RAM, of the kernel and of the low 2 MiB are used, and every other managed page is
  -- free, whether the map lists it as RAM or not.
  pub init-Booted :
      (s : Pmm)
      → AreBytes s.bitmap
      → ((init b s ≡ none)
          × ((b.magic ≢ boot_info_magic) ⊎ (max_bitmap_size_bytes < (reset b s).bitmap_size_bytes)))
        ⊎ ((s' : Pmm) × (init b s ≡ some s') × (b.magic ≡ boot_info_magic) × Booted b s')
  unfolding init
  init-Booted s bytes = elim (Bool-cases (b.magic == boot_info_magic)) [
    | inr wrong ↦ rw wrong (inl (refl, inl (ground arith)))
    | inl right ↦ elim (Bool-cases (ltb max_bitmap_size_bytes (reset b s).bitmap_size_bytes)) [
      | inl big ↦ rw (right, big) (inl (refl, inr (ltb→lt _ _ big)))
      | inr fits ↦
          rw (right, fits)
            (inr (
              lock_regions b (reset b s),
              refl,
              (==_iff _ _).0 right,
              lock_regions-Booted (reset b s) (reset-IsFresh b s small bytes (ground arith)),
            ))
    ]
  ]

-- ===== src/Pmm/Free.antt =====
-- `pmm_free_page`: what it frees, what it ignores, and that it undoes `pmm_alloc_page`.
use os_learning.Base.{
  ℕ, ◌+◌, ◌-◌, ◌*◌, ◌/◌, ◌%◌, ◌^◌, ◌≤◌, ◌<◌, ◌≡◌, refl, ◌≢◌, inl, inr, true, false, ◌||◌, some,
  arith, leb, ltb, ◌==◌, if◌then◌else◌, Bool-cases,
}
use os_learning.Pmm.{
  Pmm, low_pages, test_bit, clear_bit, alloc_page, free_page, get_free_page_count,
}
use os_learning.Pmm.Bitmap.{test_bit-clear_bit, clear_bit-AreBytes}
use os_learning.Pmm.Count.{IsValid, count_free-clear_bit, free_pages-lt}
use os_learning.Pmm.Alloc.{Allocated, Allocated-of_eq, alloc_page-AllocOutcome}

-- The addresses that `pmm_free_page` acts on.
pub record IsFreeable (s : Pmm) (paddr : ℕ) : Type 0 where
  pub aligned : paddr % 4096 ≡ 0
  pub above : low_pages ≤ paddr / 4096
  pub ram : paddr / 4096 < s.max_ram_page
  pub used : test_bit s.bitmap (paddr / 4096) ≡ true

-- Page `p` alone becomes free and is counted.
pub record Freed (s s' : Pmm) (p : ℕ) : Type 0 where
  pub cleared : (q : ℕ) → test_bit s'.bitmap q ≡ (if p == q then false else test_bit s.bitmap q)
  pub count : get_free_page_count s' ≡ get_free_page_count s + 1
  pub last_same : s'.last_alloc_index ≡ s.last_alloc_index
  pub total_same : s'.total_pages ≡ s.total_pages
  pub ram_same : s'.max_ram_page ≡ s.max_ram_page

module _ (s : Pmm) (paddr : ℕ) (v : IsValid s) where
  abbrev freed_state : Pmm
  freed_state = record s {
    bitmap = clear_bit s.bitmap (paddr / 4096);
    free_pages = (s.free_pages + 1) % 2 ^ 32;
  }

  free_page_of_IsFreeable : IsFreeable s paddr → free_page s paddr ≡ freed_state
  unfolding free_page
  free_page_of_IsFreeable f =
      let a : (paddr % 4096 == 0) ≡ true = ground (arith, f.aligned) in
      let b : ltb (paddr / 4096) 512 ≡ false = ground (arith, f.above) in
      let c : leb s.max_ram_page (paddr / 4096) ≡ false = ground (arith, f.ram) in
      rw (a, b, c, f.used)

  count_bound : IsFreeable s paddr → s.free_pages < 2 ^ 32 - 1
  count_bound f = omega (arith, free_pages-lt s v.counts, v.counts.fits)

  -- In a valid state `pmm_free_page`, given the aligned address of a used page of RAM above the low
  -- 2 MiB, makes that page free; no other page changes, the counter goes up by one, the limits and
  -- the last allocation stay, and the state stays valid.
  pub free_page-Freed :
      IsFreeable s paddr → Freed s (free_page s paddr) (paddr / 4096) × IsValid (free_page s paddr)
  unfolding get_free_page_count
  free_page-Freed f = rw (free_page_of_IsFreeable f) (
    record {
      cleared = λ q. test_bit-clear_bit s.bitmap v.counts.bytes (paddr / 4096) q;
      count = omega (arith, count_bound f);
      last_same = refl;
      total_same = refl;
      ram_same = refl;
    },
    record {
      counts = record {
        bytes = clear_bit-AreBytes s.bitmap v.counts.bytes (paddr / 4096);
        counted = omega (
          arith,
          count_bound f,
          v.counts.counted,
          count_free-clear_bit s.bitmap v.counts.bytes (paddr / 4096) s.total_pages
              (omega (arith, f.ram, v.counts.ram)) f.used,
        );
        ram = v.counts.ram;
        fits = v.counts.fits;
      };
      low = λ q h t. ground (
        arith,
        f.above,
        test_bit-clear_bit s.bitmap v.counts.bytes (paddr / 4096) q,
        v.low q h t,
      );
    },
  )

  -- In a valid state, once a used page of RAM above the low 2 MiB has been freed, the next
  -- `pmm_alloc_page` succeeds.
  pub alloc_page-free_page :
      IsFreeable s paddr
      → (p : ℕ) × (s' : Pmm) × (alloc_page (free_page s paddr) ≡ some (s', p * 4096))
        × Allocated (free_page s paddr) s' p
  alloc_page-free_page f = elim (alloc_page-AllocOutcome (free_page s paddr) valid) [
    | inl (p, s', e, got, _) ↦ (p, s', e, got)
    | inr (_, full) ↦ absurd (
        ground (
          arith,
          freed.cleared (paddr / 4096),
          full (paddr / 4096) (omega (arith, f.ram, freed.ram_same)) f.above,
        ))
  ]
    where
      freed : Freed s (free_page s paddr) (paddr / 4096)
      freed = (free_page-Freed f).0

      valid : IsValid (free_page s paddr)
      valid = (free_page-Freed f).1

-- `pmm_free_page` changes nothing for an address that is not aligned, not of RAM above the low 2
-- MiB, or not of a used page.
pub free_page-ignored : (s : Pmm) (paddr : ℕ) → ¬ (IsFreeable s paddr) → free_page s paddr ≡ s
unfolding free_page
free_page-ignored s paddr h = elim (Bool-cases (paddr % 4096 == 0)) [
  | inr odd ↦ rw odd
  | inl aligned ↦
      elim (Bool-cases (ltb (paddr / 4096) low_pages || leb s.max_ram_page (paddr / 4096))) [
        | inl outside ↦ rw (aligned, outside)
        | inr inside ↦ elim (Bool-cases (test_bit s.bitmap (paddr / 4096))) [
          | inr free ↦ rw (aligned, inside, free)
          | inl used ↦ absurd (
              h record {
                aligned = ground arith;
                above = ground arith;
                ram = ground arith;
                used = used;
              })
        ]
      ]
]

-- In a valid state, freeing the page that `pmm_alloc_page` has just returned makes every page free
-- or used as it was before, and restores the count of free pages.
pub free_page-alloc_page :
    (s s' : Pmm) (p : ℕ)
    → IsValid s
    → alloc_page s ≡ some (s', p * 4096)
    → p ≢ 0
    → ((q : ℕ) → test_bit (free_page s' (p * 4096)).bitmap q ≡ test_bit s.bitmap q)
      × (get_free_page_count (free_page s' (p * 4096)) ≡ get_free_page_count s)
free_page-alloc_page s s' p v e ne = (
  λ q. ground (arith, got.taken q, freed.cleared q, got.was_free, page),
  omega (arith, got.count, freed.count),
)
  where
    got : Allocated s s' p
    got = (Allocated-of_eq s s' p v e ne).0

    page : p * 4096 / 4096 ≡ p
    page = omega arith

    freed : Freed s' (free_page s' (p * 4096)) (p * 4096 / 4096)
    freed =
        (free_page-Freed s' (p * 4096) (Allocated-of_eq s s' p v e ne).1 (record {
          aligned = omega arith;
          above = omega (arith, got.above);
          ram = omega (arith, got.ram, got.ram_same);
          used = rw page (ground (arith, got.taken p));
        })).0

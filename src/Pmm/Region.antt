-- ===== src/Pmm/Region.antt =====
-- `pmm_mark_region_used`: which pages it takes, and that the counter follows.
use native.Mathlib.Nat.{add-zero}
use mathlib.Core.Path.{subst₂}
use os_learning.Base.{
  ℕ, zero, suc, ◌+◌, ◌-◌, ◌*◌, ◌/◌, ◌%◌, ◌^◌, ◌≤◌, ◌<◌, ◌≡◌, refl, inl, inr, ◌∙◌, ap, true, false,
  ◌&&◌, arith, leb, ltb, ◌==◌, if◌then◌else◌, Bool-cases, min, ==_iff,
}
use os_learning.Pmm.{Pmm, test_bit, take_page, mark_pages, end_page, mark_region_used}
use os_learning.Pmm.Count.{IsCounted, take_page-IsCounted, test_bit-take_page}

-- The pages `[from, from + rounds)` are used, the others as before, and the rest of the state but
-- the counter stays.
pub record Marked (s s' : Pmm) (from to : ℕ) : Type 0 where
  pub pages :
      (q : ℕ)
      → test_bit s'.bitmap q ≡ (if leb from q && ltb q to then true else test_bit s.bitmap q)
  pub counts : IsCounted s'
  pub total_same : s'.total_pages ≡ s.total_pages
  pub ram_same : s'.max_ram_page ≡ s.max_ram_page
  pub last_same : s'.last_alloc_index ≡ s.last_alloc_index

mark_step-Marked :
    (s : Pmm) (p : ℕ)
    → IsCounted s
    → p < s.total_pages
    → Marked s (if test_bit s.bitmap p then s else take_page s p) p (suc p)
unfolding take_page
mark_step-Marked s p v h = elim (Bool-cases (test_bit s.bitmap p)) [
  | inl used ↦ rw used (record {
    pages = λ q. elim (Bool-cases (p == q)) [
      | inl same ↦ ground (arith, used, ap (λ n. test_bit s.bitmap n) ((==_iff p q).0 same))
      | inr other ↦ ground arith
    ];
    counts = v;
    total_same = refl;
    ram_same = refl;
    last_same = refl;
  })
  | inr free ↦ rw free (record {
    pages = λ q. ground (arith, test_bit-take_page s v p q);
    counts = take_page-IsCounted s p v h free;
    total_same = refl;
    ram_same = refl;
    last_same = refl;
  })
]

Marked-trans :
    (s t u : Pmm) (from to : ℕ)
    → from < to
    → Marked s t from (suc from)
    → Marked t u (suc from) to
    → Marked s u from to
Marked-trans s t u from to h a b = record {
  pages = λ q. ground (arith, a.pages q, b.pages q);
  counts = b.counts;
  total_same = b.total_same ∙ a.total_same;
  ram_same = b.ram_same ∙ a.ram_same;
  last_same = b.last_same ∙ a.last_same;
}

Marked-refl : (s : Pmm) (p : ℕ) → IsCounted s → Marked s s p p
Marked-refl s p v = record {
  pages = λ q. ground arith;
  counts = v;
  total_same = refl;
  ram_same = refl;
  last_same = refl;
}

mark_pages-Marked :
    (s : Pmm) (p rounds : ℕ)
    → IsCounted s
    → p + rounds ≤ s.total_pages
    → Marked s (mark_pages s p rounds) p (p + rounds)
unfolding mark_pages
mark_pages-Marked s p zero v h = rw add-zero (Marked-refl s p v)
mark_pages-Marked s p (suc rounds) v h =
    let step = mark_step-Marked s p v (omega arith) in
    let t : Pmm = if test_bit s.bitmap p then s else take_page s p in
    let rest = mark_pages-Marked t (p + 1) rounds step.counts (omega (arith, step.total_same)) in
    Marked-trans s t (mark_pages t (p + 1) rounds) p (p + suc rounds) (omega arith) step
      (subst₂ (λ a b. Marked t (mark_pages t (p + 1) rounds) a b) (omega arith) (omega arith) rest)

-- The region has a byte in page `q`, or starts inside it.
abbrev pub Covers : ℕ → ℕ → ℕ → Type 0
Covers start_paddr size q = (start_paddr < (q + 1) * 4096) × (q * 4096 < start_paddr + size)

-- The arithmetic of `end_page` where no 64-bit sum wraps.
end_page-eq :
    (s : Pmm) (start_paddr size : ℕ)
    → start_paddr + size + 4095 < 2 ^ 64
    → s.total_pages ≤ 2 ^ 20
    → end_page s start_paddr size ≡ min ((start_paddr + size + 4095) / 4096) s.total_pages
unfolding end_page
end_page-eq s start_paddr size nowrap fits = omega arith

-- What `pmm_mark_region_used` guarantees: a managed page is used afterwards exactly if it was, or
-- if the region covers it.
pub record RegionMarked (s s' : Pmm) (start_paddr size : ℕ) : Type 0 where
  pub covered :
      (q : ℕ) → q < s.total_pages → Covers start_paddr size q → test_bit s'.bitmap q ≡ true
  pub others :
      (q : ℕ)
      → q < s.total_pages
      → ¬ (Covers start_paddr size q)
      → test_bit s'.bitmap q ≡ test_bit s.bitmap q
  pub counts : IsCounted s'
  pub total_same : s'.total_pages ≡ s.total_pages
  pub ram_same : s'.max_ram_page ≡ s.max_ram_page
  pub last_same : s'.last_alloc_index ≡ s.last_alloc_index

-- If the counter is right and the region's end does not wrap past 2 ^ 64, `pmm_mark_region_used`
-- makes every managed page that the region covers used and changes no other managed page, the
-- counter stays right, and the limits and the last allocation stay.
pub mark_region_used-RegionMarked :
    (s : Pmm) (start_paddr size : ℕ)
    → IsCounted s
    → start_paddr + size + 4095 < 2 ^ 64
    → RegionMarked s (mark_region_used s start_paddr size) start_paddr size
unfolding mark_region_used
mark_region_used-RegionMarked s start_paddr size v nowrap =
    elim (Bool-cases (leb s.total_pages (start_paddr / 4096))) [
      | inl outside ↦ rw outside (record {
        covered = λ q h c. absurd (ground arith);
        others = λ q h c. refl;
        counts = v;
        total_same = refl;
        ram_same = refl;
        last_same = refl;
      })
      | inr inside ↦
          let first : start_paddr / 4096 % 2 ^ 32 ≡ start_paddr / 4096 = ground (arith, v.fits) in
          rw (inside, first, end_page-eq s start_paddr size nowrap v.fits)
            (let m : Marked s (mark_pages s from (to - from)) from (from + (to - from)) =
                marked inside in
              record {
                covered = λ q h c. ground (arith, m.pages q);
                others = λ q h c. elim (Bool-cases (leb from q && ltb q (from + (to - from)))) [
                  | inl within ↦ absurd (c (ground arith))
                  | inr without ↦ ground (arith, m.pages q)
                ];
                counts = m.counts;
                total_same = m.total_same;
                ram_same = m.ram_same;
                last_same = m.last_same;
              })
    ]
  where
    from : ℕ
    from = start_paddr / 4096

    to : ℕ
    to = min ((start_paddr + size + 4095) / 4096) s.total_pages

    marked :
        leb s.total_pages from ≡ false
        → Marked s (mark_pages s from (to - from)) from (from + (to - from))
    marked inside = mark_pages-Marked s from (to - from) v (ground arith)

-- ===== src/Pmm/Listing.antt =====
-- The regions that a dump lists hold exactly the pages it looks for.
use os_learning.Base.{
  ℕ, zero, suc, ◌+◌, ◌-◌, ◌*◌, ◌%◌, ◌^◌, ◌≤◌, ◌<◌, ◌≡◌, ◌∙◌, refl, ap, ◌⊎◌, ◌≢◌, inl, inr, Bool,
  true, false, not, ◌&&◌, ◌||◌, Bool-cases, List, [], ◌∷◌, arith, ltb, leb, ◌==◌, ==_iff,
  if◌then◌else◌,
}
use os_learning.Memory.{sub32}
use os_learning.Pmm.{Pmm, test_bit}
use os_learning.Pmm.Dump.{Region, region, regions_loop, dump_regions}

-- Whether an address lies in a region of the list.
abbrev pub listed : List Region → ℕ → Bool
listed [] a = false
listed (r ∷ l) a = leb r.first a && leb a r.last || listed l a

-- Whether a page is of the kind that the dump looks for.
abbrev pub wanted : Pmm → Bool → ℕ → Bool
wanted s dump_used_regions page =
    if dump_used_regions then test_bit s.bitmap page else not (test_bit s.bitmap page)

region-page :
    (a b q : ℕ)
    → a < b
    → b ≤ 2 ^ 20
    → (leb (region a b).first (q * 4096) && leb (q * 4096) (region a b).last) ≡ (leb a q && ltb q b)
unfolding region
region-page a b q h small =
    let first : a * 4096 % 2 ^ 32 ≡ a * 4096 = omega arith in
    let last : sub32 (b * 4096 % 2 ^ 32) 1 ≡ b * 4096 - 1 = omega arith in
    rw (first, last) (ground arith)

module _ (s : Pmm) (d : Bool) (q : ℕ) where
  -- What should be listed from `p` on: the run that is open, and the pages that are left.
  abbrev expected : ℕ → ℕ → ℕ → Bool → Bool
  expected left p run_start in_run =
      (in_run && (leb run_start q && ltb q p)) || ((leb p q && ltb q (p + left)) && wanted s d q)

  at_page : (p : ℕ) {b : Bool} → wanted s d p ≡ b → ((q ≡ p) × (wanted s d q ≡ b)) ⊎ (q ≢ p)
  at_page p w = elim (Bool-cases (q == p)) [
    | inl same ↦ let e : q ≡ p = (==_iff q p).0 same in inl (e, ap (wanted s d) e ∙ w)
    | inr apart ↦ inr (ground arith)
  ]

  regions_loop-listed :
      (left p run_start : ℕ) (in_run : Bool)
      → (in_run ≡ true → run_start < p)
      → p + left ≤ 2 ^ 20
      → listed (regions_loop s d left p run_start in_run) (q * 4096)
        ≡ expected left p run_start in_run
  unfolding regions_loop
  regions_loop-listed zero p run_start true o small =
      ground (arith, region-page run_start p q (o refl) (omega arith))
  regions_loop-listed zero p run_start false o small = ground arith
  regions_loop-listed (suc left) p run_start true o small =
      let same =
        regions_loop-listed left (p + 1) run_start true (λ e. omega (arith, o refl))
          (omega arith) in
      let ended = regions_loop-listed left (p + 1) run_start false (λ e. cc) (omega arith) in
      let page = region-page run_start p q (o refl) (omega arith) in
      elim (Bool-cases (wanted s d p)) [
        | inl w ↦ rw w (
            same ∙ (elim (at_page p w) [
              | inl (e, wq) ↦ ground (arith, wq)
              | inr apart ↦ ground (arith)
            ]))
        | inr w ↦ rw w (
            ap
              (λ b.
                (leb (region run_start p).first (q * 4096)
                  && leb (q * 4096) (region run_start p).last)
                || b)
              ended
            ∙ (elim (at_page p w) [
              | inl (e, wq) ↦ ground (arith, page, wq)
              | inr apart ↦ ground (arith, page)
            ]))
      ]
  regions_loop-listed (suc left) p run_start false o small =
      let begun = regions_loop-listed left (p + 1) p true (λ e. omega arith) (omega arith) in
      let same = regions_loop-listed left (p + 1) run_start false (λ e. cc) (omega arith) in
      elim (Bool-cases (wanted s d p)) [
        | inl w ↦ rw w (
            begun ∙ (elim (at_page p w) [
              | inl (e, wq) ↦ ground (arith, wq)
              | inr apart ↦ ground (arith)
            ]))
        | inr w ↦ rw w (
            same ∙ (elim (at_page p w) [
              | inl (e, wq) ↦ ground (arith, wq)
              | inr apart ↦ ground (arith)
            ]))
      ]

-- For at most 2 ^ 20 pages, the address of a page lies in one of the regions that
-- `pmm_dump_regions` lists exactly if the page is below the limit of the scan and of the kind asked
-- for, used or free.
pub dump_regions-listed :
    (s : Pmm) (dump_used_regions : Bool) (page : ℕ)
    → s.total_pages ≤ 2 ^ 20
    → s.max_ram_page ≤ 2 ^ 20
    → listed (dump_regions s dump_used_regions) (page * 4096) ≡ (
        ltb page (if dump_used_regions then s.total_pages else s.max_ram_page)
        && wanted s dump_used_regions page)
unfolding dump_regions
dump_regions-listed s true page total ram =
    regions_loop-listed s true page s.total_pages 0 0 false (λ e. cc) (omega arith) ∙ ground arith
dump_regions-listed s false page total ram =
    regions_loop-listed s false page s.max_ram_page 0 0 false (λ e. cc) (omega arith) ∙ ground arith

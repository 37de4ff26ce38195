-- ===== src/Pmm/Init/Reserve.antt =====
-- The regions that `pmm_init` locks.
use native.Mathlib.Nat.{add-zero}
use mathlib.Core.Path.{subst₂}
use os_learning.Base.{
  ℕ, zero, suc, ◌+◌, ◌^◌, ◌≤◌, ◌<◌, ◌≡◌, refl, subst, ◌∙◌, ◌≢◌, inl, inr, true, false, arith, ◌==◌,
  if◌then◌else◌, Bool-cases, ==_iff,
}
use os_learning.BootInfo.{E820Entry}
use os_learning.Pmm.{Pmm, test_bit, mark_region_used}
use os_learning.Pmm.Count.{IsCounted}
use os_learning.Pmm.Region.{Covers, RegionMarked, mark_region_used-RegionMarked}
use os_learning.Pmm.Init.{reserve_loop}

-- Page `p` lies in an entry of the map, from index `i` on, that is not RAM.
pub record ReservedBy (e820_map : ℕ → E820Entry) (i to p : ℕ) : Type 0 where
  pub entry : ℕ
  pub from : i ≤ entry
  pub below : entry < to
  pub not_ram : (e820_map entry).type ≢ 1
  pub covers : Covers (e820_map entry).addr (e820_map entry).size p

-- What the loop over the entries `[i, to)` makes of `s`.
pub record Reserved (e820_map : ℕ → E820Entry) (i to : ℕ) (s s' : Pmm) : Type 0 where
  pub used : (p : ℕ) → p < s.total_pages → ReservedBy e820_map i to p → test_bit s'.bitmap p ≡ true
  pub kept : (p : ℕ) → p < s.total_pages → test_bit s.bitmap p ≡ true → test_bit s'.bitmap p ≡ true
  pub others :
      (p : ℕ)
      → p < s.total_pages
      → ¬ (ReservedBy e820_map i to p)
      → test_bit s'.bitmap p ≡ test_bit s.bitmap p
  pub counts : IsCounted s'
  pub total_same : s'.total_pages ≡ s.total_pages
  pub ram_same : s'.max_ram_page ≡ s.max_ram_page
  pub last_same : s'.last_alloc_index ≡ s.last_alloc_index

-- A region does not free a page.
pub RegionMarked-kept :
    (s s' : Pmm) (start size p : ℕ)
    → RegionMarked s s' start size
    → p < s.total_pages
    → test_bit s.bitmap p ≡ true
    → test_bit s'.bitmap p ≡ true
RegionMarked-kept s s' start size p m h used = elim (Bool-cases (test_bit s'.bitmap p)) [
  | inl yes_used ↦ yes_used
  | inr free ↦ m.others p h (λ c. false_of free (m.covered p h c)) ∙ used
]
  where
    false_of : test_bit s'.bitmap p ≡ false → test_bit s'.bitmap p ≡ true → ⊥
    false_of f t = cc

module _ (e820_map : ℕ → E820Entry) where
  Reserved-refl : (i : ℕ) (s : Pmm) → IsCounted s → Reserved e820_map i i s s
  Reserved-refl i s v = record {
    used = λ p h r. absurd (omega (arith, r.from, r.below));
    kept = λ p h u. u;
    others = λ p h n. refl;
    counts = v;
    total_same = refl;
    ram_same = refl;
    last_same = refl;
  }

  Reserved-trans :
      (i to : ℕ) (s t u : Pmm)
      → i < to
      → Reserved e820_map i (suc i) s t
      → Reserved e820_map (suc i) to t u
      → Reserved e820_map i to s u
  Reserved-trans i to s t u h a b = record {
    used = λ p hp r. elim (Bool-cases (r.entry == i)) [
      | inl here ↦ b.kept p (omega (arith, a.total_same)) (
          a.used p hp (record {
            entry = r.entry;
            from = r.from;
            below = ground arith;
            not_ram = r.not_ram;
            covers = r.covers;
          }))
      | inr later ↦ b.used p (omega (arith, a.total_same)) (record {
        entry = r.entry;
        from = ground arith;
        below = r.below;
        not_ram = r.not_ram;
        covers = r.covers;
      })
    ];
    kept = λ p hp e. b.kept p (omega (arith, a.total_same)) (a.kept p hp e);
    others = λ p hp n.
        b.others p (omega (arith, a.total_same)) (λ r. n (record {
          entry = r.entry;
          from = omega (arith, r.from);
          below = r.below;
          not_ram = r.not_ram;
          covers = r.covers;
        }))
        ∙ a.others p hp (λ r. n (record {
          entry = r.entry;
          from = r.from;
          below = omega (arith, r.below);
          not_ram = r.not_ram;
          covers = r.covers;
        }));
    counts = b.counts;
    total_same = b.total_same ∙ a.total_same;
    ram_same = b.ram_same ∙ a.ram_same;
    last_same = b.last_same ∙ a.last_same;
  }

  module _ (i : ℕ) (s : Pmm) (v : IsCounted s) where
    -- A RAM entry is passed over.
    Reserved-of_ram : (e820_map i).type ≡ 1 → Reserved e820_map i (suc i) s s
    Reserved-of_ram ram = record {
      used = λ p h r.
          let here : i ≡ r.entry = omega (arith, r.from, r.below) in
          absurd (r.not_ram (subst (λ e. (e820_map e).type ≡ 1) here ram));
      kept = λ p h u. u;
      others = λ p h n. refl;
      counts = v;
      total_same = refl;
      ram_same = refl;
      last_same = refl;
    }

    Reserved-of_RegionMarked :
        (s' : Pmm)
        → (e820_map i).type ≢ 1
        → RegionMarked s s' (e820_map i).addr (e820_map i).size
        → Reserved e820_map i (suc i) s s'
    Reserved-of_RegionMarked s' not_ram m = record {
      used = λ p h r.
          let here : r.entry ≡ i = omega (arith, r.from, r.below) in
          m.covered p h (subst (λ e. Covers (e820_map e).addr (e820_map e).size p) here r.covers);
      kept = λ p h u. RegionMarked-kept s s' (e820_map i).addr (e820_map i).size p m h u;
      others = λ p h n. m.others p h (λ c. n (record {
        entry = i;
        from = omega arith;
        below = omega arith;
        not_ram = not_ram;
        covers = c;
      }));
      counts = m.counts;
      total_same = m.total_same;
      ram_same = m.ram_same;
      last_same = m.last_same;
    }

    Reserved-step :
        (e820_map i).addr + (e820_map i).size < 2 ^ 43
        → Reserved e820_map i (suc i) s (
            if (e820_map i).type == 1
            then s
            else mark_region_used s (e820_map i).addr (e820_map i).size)
    Reserved-step small = elim (Bool-cases ((e820_map i).type == 1)) [
      | inl ram ↦ rw ram (Reserved-of_ram ((==_iff _ 1).0 ram))
      | inr other ↦ rw other (
          Reserved-of_RegionMarked _ (ground arith)
            (mark_region_used-RegionMarked s (e820_map i).addr (e820_map i).size v (omega arith)))
    ]

  -- The loop of step 6 makes used exactly the pages of the entries that are not RAM.
  pub reserve_loop-Reserved :
      (i rounds : ℕ) (s : Pmm)
      → IsCounted s
      → ((j : ℕ) → j < i + rounds → (e820_map j).addr + (e820_map j).size < 2 ^ 43)
      → Reserved e820_map i (i + rounds) s (reserve_loop e820_map i rounds s)
  unfolding reserve_loop
  reserve_loop-Reserved i zero s v small = rw add-zero (Reserved-refl i s v)
  reserve_loop-Reserved i (suc rounds) s v small =
      let t : Pmm =
        if (e820_map i).type == 1
        then s
        else mark_region_used s (e820_map i).addr (e820_map i).size in
      let step : Reserved e820_map i (suc i) s t = Reserved-step i s v (small i (omega arith)) in
      let rest =
        reserve_loop-Reserved (i + 1) rounds t step.counts (λ j h. small j (omega arith)) in
      Reserved-trans i (i + suc rounds) s t (reserve_loop e820_map (i + 1) rounds t) (omega arith)
        step
        (subst₂ (λ a c. Reserved e820_map a c t (reserve_loop e820_map (i + 1) rounds t))
          (omega arith) (omega arith) rest)

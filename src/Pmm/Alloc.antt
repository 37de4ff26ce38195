-- ===== src/Pmm/Alloc.antt =====
-- `pmm_alloc_page`: the next-fit search visits every RAM page once, so it ends, and what it returns
-- is the first free page behind the last allocation.
use native.Mathlib.Nat.{mod-eq_of_lt}
use os_learning.Base.{
  ℕ, zero, suc, ◌+◌, ◌*◌, ◌%◌, ◌^◌, ◌≤◌, ◌<◌, ◌≡◌, refl, ◌∙◌, ap, subst, ◌≢◌, ◌⊎◌, inl, inr, true,
  false, Option, some, arith, ◌==◌, if◌then◌else◌, Bool-cases,
}
use os_learning.Pmm.{
  Pmm, low_pages, test_bit, take_page, eligible, alloc_loop, alloc_page, get_free_page_count,
}
use os_learning.Pmm.Count.{
  IsValid, count_free-pos, free_pages-take_page, take_page-IsCounted, test_bit-take_page,
}

-- `q` is met before `p` on the way round from `start`.
abbrev pub Between : ℕ → ℕ → ℕ → Type 0
Between start p q = ((start ≤ q) × (q < p)) ⊎ ((p < start) × ((start ≤ q) ⊎ (q < p)))

module _ (s : Pmm) (small : s.max_ram_page ≤ 2 ^ 20) where
  -- Where the search goes from page `i`.
  next-inside : (i : ℕ) → suc i < s.max_ram_page → (i + 1) % 2 ^ 32 % s.max_ram_page ≡ suc i
  next-inside i h = let e : (i + 1) % 2 ^ 32 ≡ suc i = omega arith in rw e (mod-eq_of_lt h)

  next-last : (i : ℕ) → suc i ≡ s.max_ram_page → (i + 1) % 2 ^ 32 % s.max_ram_page ≡ 0
  next-last i h = let e : (i + 1) % 2 ^ 32 ≡ s.max_ram_page = omega arith in rw e (grind arith)

  record Found (start p : ℕ) (r : Option (Pmm × ℕ)) : Type 0 where
    ram : p < s.max_ram_page
    hit : eligible s p ≡ true
    result : r ≡ some (record (take_page s p) { last_alloc_index = p }, p * 4096 % 2 ^ 32)
    first : (q : ℕ) → q < s.max_ram_page → Between start p q → eligible s q ≡ false

  record Missed (r : Option (Pmm × ℕ)) : Type 0 where
    result : r ≡ some (s, 0)
    full : (q : ℕ) → q < s.max_ram_page → eligible s q ≡ false

  abbrev LoopOutcome : ℕ → Option (Pmm × ℕ) → Type 0
  LoopOutcome start r = ((p : ℕ) × Found start p r) ⊎ Missed r

  -- The search has wrapped round, and is below its start.
  alloc_loop_wrapped :
      (fuel start i : ℕ)
      → i < start
      → start < s.max_ram_page
      → start ≤ fuel + i
      → ((q : ℕ) → q < s.max_ram_page → (start ≤ q) ⊎ (q < i) → eligible s q ≡ false)
      → LoopOutcome start (alloc_loop fuel s start i)
  unfolding alloc_loop
  alloc_loop_wrapped zero start i h hs enough seen = absurd (omega arith)
  alloc_loop_wrapped (suc fuel) start i h hs enough seen =
      rw (next-inside i (omega arith)) (elim (Bool-cases (eligible s i)) [
        | inl hit ↦ inl (
          i,
          record {
            ram = omega arith;
            hit = hit;
            result = rw hit;
            first = λ q hq b. seen q hq (ground arith);
          },
        )
        | inr miss ↦ elim (Bool-cases (suc i == start)) [
          | inl last ↦
              inr (record { result = rw (miss, last); full = λ q hq. ground (arith, seen q hq) })
          | inr more ↦
              rw (miss, more)
                (alloc_loop_wrapped fuel start (suc i) (ground arith) hs (omega arith)
                  λ q hq b. ground (arith, seen q hq))
        ]
      ])

  -- The search is at or above its start.
  alloc_loop-Outcome :
      (fuel start i : ℕ)
      → start ≤ i
      → i < s.max_ram_page
      → s.max_ram_page + start ≤ fuel + i
      → ((q : ℕ) → q < s.max_ram_page → start ≤ q → q < i → eligible s q ≡ false)
      → LoopOutcome start (alloc_loop fuel s start i)
  unfolding alloc_loop
  alloc_loop-Outcome zero start i h hi enough seen = absurd (omega arith)
  alloc_loop-Outcome (suc fuel) start i h hi enough seen = elim (Bool-cases (eligible s i)) [
    | inl hit ↦ inl (
      i,
      record { ram = hi; hit = hit; result = rw hit; first = λ q hq b. ground (arith, seen q hq) },
    )
    | inr miss ↦ rw miss (elim (Bool-cases (suc i == s.max_ram_page)) [
      | inl last ↦ rw (next-last i (ground arith)) (elim (Bool-cases (0 == start)) [
        | inl round ↦ inr (record { result = rw round; full = λ q hq. ground (arith, seen q hq) })
        | inr more ↦ rw more (
            alloc_loop_wrapped fuel start 0 (ground arith) (omega arith) (ground arith)
              λ q hq b. ground (arith, seen q hq))
      ])
      | inr inside ↦ rw (next-inside i (ground arith)) (
          let apart : (suc i == start) ≡ false = ground arith in
          rw apart (
            alloc_loop-Outcome fuel start (suc i) (omega arith) (ground arith) (omega arith)
              λ q hq a b. ground (arith, seen q hq a)))
    ])
  ]

-- What the caller of a successful `pmm_alloc_page` gets: `p` is a free page of RAM above the low
-- 2 MiB, the first one from the last allocation on; it alone is now used, and is counted.
pub record Allocated (s s' : Pmm) (p : ℕ) : Type 0 where
  pub above : low_pages ≤ p
  pub ram : p < s.max_ram_page
  pub was_free : test_bit s.bitmap p ≡ false
  pub first :
      (q : ℕ)
      → q < s.max_ram_page
      → low_pages ≤ q
      → Between (s.last_alloc_index % s.max_ram_page) p q
      → test_bit s.bitmap q ≡ true
  pub taken : (q : ℕ) → test_bit s'.bitmap q ≡ (if p == q then true else test_bit s.bitmap q)
  pub count : get_free_page_count s' + 1 ≡ get_free_page_count s
  pub last : s'.last_alloc_index ≡ p
  pub total_same : s'.total_pages ≡ s.total_pages
  pub ram_same : s'.max_ram_page ≡ s.max_ram_page

-- No RAM page above the low 2 MiB is free.
abbrev pub Exhausted : Pmm → Type 0
Exhausted s = (p : ℕ) → p < s.max_ram_page → low_pages ≤ p → test_bit s.bitmap p ≡ true

abbrev pub AllocOutcome : Pmm → Option (Pmm × ℕ) → Type 0
AllocOutcome s r =
    ((p : ℕ) × (s' : Pmm) × (r ≡ some (s', p * 4096)) × Allocated s s' p × IsValid s')
    ⊎ ((r ≡ some (s, 0)) × Exhausted s)

module _ (s : Pmm) (v : IsValid s) where
  small : s.max_ram_page ≤ 2 ^ 20
  small = omega (arith, v.counts.ram, v.counts.fits)

  Exhausted-of_zero : s.free_pages ≡ 0 → Exhausted s
  Exhausted-of_zero e p ram above = elim (Bool-cases (test_bit s.bitmap p)) [
    | inl used ↦ used
    | inr free ↦ absurd (
        omega (
          arith,
          v.counts.counted,
          v.counts.ram,
          count_free-pos s.bitmap s.total_pages p (omega (arith, v.counts.ram)) free,
        ))
  ]

  take_page-IsValid :
      (p : ℕ) → p < s.total_pages → test_bit s.bitmap p ≡ false → IsValid (take_page s p)
  unfolding take_page
  take_page-IsValid p managed free = record {
    counts = take_page-IsCounted s p v.counts managed free;
    low = λ q h t. ground (arith, test_bit-take_page s v.counts p q, v.low q h t);
  }

  Allocated-of_Found :
      (p : ℕ) {r : Option (Pmm × ℕ)}
      → Found s small (s.last_alloc_index % s.max_ram_page) p r
      → AllocOutcome s r
  unfolding take_page eligible get_free_page_count
  Allocated-of_Found p f =
      let free : test_bit s.bitmap p ≡ false = ground (arith, f.hit) in
      let managed : p < s.total_pages = omega (arith, f.ram, v.counts.ram) in
      let s' : Pmm = record (take_page s p) { last_alloc_index = p } in
      let valid : IsValid (take_page s p) = take_page-IsValid p managed free in
      inl (
        p,
        s',
        f.result ∙ ap (λ n. some (s', n)) (omega (arith, managed, v.counts.fits)),
        record {
          above = ground (arith, f.hit);
          ram = f.ram;
          was_free = free;
          first = λ q hq above b. ground (arith, f.first q hq b);
          taken = λ q. test_bit-take_page s v.counts p q;
          count = free_pages-take_page s p v.counts managed free;
          last = refl;
          total_same = refl;
          ram_same = refl;
        },
        record {
          counts = record {
            bytes = valid.counts.bytes;
            counted = valid.counts.counted;
            ram = v.counts.ram;
            fits = v.counts.fits;
          };
          low = valid.low;
        },
      )

  -- In a valid state `pmm_alloc_page` always returns: either a free page of RAM above the low 2
  -- MiB, the first one round from the last allocation, which alone is now used and counted, in a
  -- valid state; or 0 with the state unchanged, and then no such page is free.
  pub alloc_page-AllocOutcome : AllocOutcome s (alloc_page s)
  unfolding alloc_page eligible
  alloc_page-AllocOutcome = elim (Bool-cases (s.free_pages == 0)) [
    | inl none_left ↦ rw none_left (inr (refl, Exhausted-of_zero (ground arith)))
    | inr left ↦ elim (Bool-cases (s.max_ram_page == 0)) [
      | inl no_ram ↦ rw (left, no_ram) (inr (refl, λ p ram above. absurd (ground arith)))
      | inr has_ram ↦ rw (left, has_ram) (search_from_last (ground arith))
    ]
  ]
    where
      search_from_last :
          0 < s.max_ram_page
          → AllocOutcome s (
              alloc_loop s.max_ram_page s
                (s.last_alloc_index % s.max_ram_page)
                (s.last_alloc_index % s.max_ram_page))
      search_from_last pos =
          elim (alloc_loop-Outcome s small s.max_ram_page (s.last_alloc_index % s.max_ram_page)
            (s.last_alloc_index % s.max_ram_page) (omega arith) (omega arith) (omega arith)
            (λ q hq a b. absurd (omega arith))) [
              | inl (p, f) ↦ Allocated-of_Found p f
              | inr m ↦ inr (m.result, λ p ram above. ground (arith, m.full p ram))
            ]

-- The same, read off a successful call.
pub Allocated-of_eq :
    (s s' : Pmm) (p : ℕ)
    → IsValid s
    → alloc_page s ≡ some (s', p * 4096)
    → p ≢ 0
    → Allocated s s' p × IsValid s'
Allocated-of_eq s s' p v e ne = elim (alloc_page-AllocOutcome s v) [
  | inl (p', t, e', got, valid) ↦
      let state : t ≡ s' = cc in
      let addr : p' * 4096 ≡ p * 4096 = cc in
      let page : p' ≡ p = omega arith in
      subst (λ u. Allocated s u p × IsValid u) state
        (subst (λ n. Allocated s t n × IsValid t) page (got, valid))
  | inr (e', _) ↦ let addr : 0 ≡ p * 4096 = cc in absurd (ne (omega arith))
]

-- ===== src/Vmm/Demand/Served.antt =====
-- A sequence of accesses, by the page fault handler of vmm.c.
use os_learning.Base.{ℕ, ◌≡◌, refl, ap, ◌∙◌, ◌≢◌, ◌⊎◌, inl, inr, none, subst, List, [], ◌∷◌}
use os_learning.Memory.{Run, ok}
use os_learning.Pmm.Count.{IsValid}
use os_learning.Vmm.{Vmm, Memory, translate, dir_index}
use os_learning.Vmm.Entries.{IsSelfMapped}
use os_learning.Vmm.Demand.{access_all, AreIn, AreBacked, HasTables, SameTables, Backed, OutOfPages}
use os_learning.Vmm.Demand.Step.{option_cases, access-Outcome}

-- The tables of a region stay there.
pub HasTables-kept :
    (lo hi : ℕ) (s s' : Vmm) → SameTables s s' → HasTables lo hi s → HasTables lo hi s'
HasTables-kept lo hi s s' same tables = record {
  above = tables.above;
  word = tables.word;
  table = λ addr low high.
      rw (same.directory, same.entries (dir_index addr)) (tables.table addr low high);
  outside = λ addr low high.
      rw (same.directory, same.entries (dir_index addr)) (tables.outside addr low high);
}

still_backed :
    (m m' : Memory) (addrs : List ℕ) (addr : ℕ)
    → Backed m addrs m'
    → translate m.vmm addr ≢ none
    → translate m'.vmm addr ≢ none
still_backed m m' addrs addr b there e = elim (option_cases (translate m.vmm addr)) [
  | inl missing ↦ there missing
  | inr (p, found) ↦ (let k = b.kept addr p found in cc)
]

Backed-cons :
    (m m' m'' : Memory) (addr : ℕ) (addrs : List ℕ)
    → Backed m (addr ∷ []) m'
    → Backed m' addrs m''
    → Backed m (addr ∷ addrs) m''
unfolding AreBacked
Backed-cons m m' m'' addr addrs b b' = record {
  valid = b'.valid;
  self_mapped = b'.self_mapped;
  same = record {
    directory = b'.same.directory ∙ b.same.directory;
    entries = λ i.
        subst (λ d. m''.vmm.frames d i ≡ m'.vmm.frames d i) b.same.directory (b'.same.entries i)
        ∙ b.same.entries i;
  };
  kept = λ other p e. b'.kept other p (b.kept other p e);
  in_use = λ q e. b'.in_use q (b.in_use q e);
  pages = (still_backed m' m'' addrs addr b' b.pages.0, b'.pages);
}

-- Accesses of a region whose tables are there: each address has a page behind it then, or no page
-- of RAM was left for one of them.
pub access_all-Outcome :
    (m : Memory) (lo hi : ℕ) (addrs : List ℕ)
    → IsValid m.pmm
    → IsSelfMapped m.vmm
    → HasTables lo hi m.vmm
    → AreIn lo hi addrs
    → ((m' : Memory) × (access_all m addrs ≡ ok m') × Backed m addrs m')
      ⊎ ((access_all m addrs ≡ Run.panic) × OutOfPages m addrs)
unfolding access_all AreIn AreBacked
access_all-Outcome m lo hi [] valid self tables inside = inl (
  m,
  refl,
  record {
    valid = valid;
    self_mapped = self;
    same = record { directory = refl; entries = λ i. refl };
    kept = λ other q e. e;
    in_use = λ q e. e;
    pages = tt;
  },
)
access_all-Outcome m lo hi (addr ∷ addrs) valid self tables (low, high, rest) =
    elim (access-Outcome m lo hi addr valid self tables low high) [
      | inr (stopped, missing, full) ↦ inr (
        rw stopped refl,
        record {
          before = [];
          addr = addr;
          after = addrs;
          split = refl;
          last = m;
          reached = refl;
          missing = missing;
          none_free = full;
        },
      )
      | inl (m', e, b) ↦
          elim (access_all-Outcome m' lo hi addrs b.valid b.self_mapped
            (HasTables-kept lo hi m.vmm m'.vmm b.same tables) rest) [
              | inl (m'', e', b') ↦ inl (m'', rw (e, e') refl, Backed-cons m m' m'' addr addrs b b')
              | inr (stopped, out) ↦ inr (
                rw (e, stopped) refl,
                record {
                  before = addr ∷ out.before;
                  addr = out.addr;
                  after = out.after;
                  split = ap (λ l. addr ∷ l) out.split;
                  last = out.last;
                  reached = rw (e, out.reached) refl;
                  missing = out.missing;
                  none_free = out.none_free;
                },
              )
            ]
    ]

-- ===== src/Pmm/Dump.antt =====
-- The dumps of mem/pmm.c: what they print, as the values that go into each line.
use os_learning.Base.{
  ℕ, zero, suc, ◌+◌, ◌-◌, ◌*◌, ◌/◌, ◌%◌, ◌^◌, Bool, true, false, not, ◌&&◌, Option, some, none,
  List, [], ◌∷◌, ltb, leb, if◌then◌else◌,
}
use os_learning.Memory.{sub32}
use os_learning.Pmm.{Pmm, test_bit}

-- The pages from `p` on, as the characters of a line.
unfoldable pub bitmap_line : Pmm → ℕ → ℕ → List ℕ
bitmap_line s p zero = []
bitmap_line s p (suc left) =
    let rest = bitmap_line s (p + 1) left in
    if ltb p s.total_pages then (if test_bit s.bitmap p then b'#' else b'.') ∷ rest else []

-- `dump_bitmap_line`: the address, and the characters behind it.
unfoldable pub dump_bitmap_line : Pmm → ℕ → ℕ → ℕ × List ℕ
dump_bitmap_line s start_page end_page =
    (start_page * 4096 % 2 ^ 32, bitmap_line s start_page (end_page - start_page))

-- The `for` of `pmm_dump` from page `p`, with the lines that are left.
unfoldable pub dump_lines : Pmm → ℕ → ℕ → List (ℕ × List ℕ)
dump_lines s p zero = []
dump_lines s p (suc left) = dump_bitmap_line s p (p + 32) ∷ dump_lines s (p + 32) left

-- The numbers that `pmm_dump` prints in front of the lines.
pub record Summary : Type 0 where
  pub total : ℕ
  pub total_mib : ℕ
  pub free : ℕ
  pub free_mib : ℕ
  pub used : ℕ
  pub used_mib : ℕ
  pub bitmap_size : ℕ

abbrev pub pages_mib : ℕ → ℕ
pages_mib pages = pages * 4096 % 2 ^ 32 / 1048576

unfoldable pub dump : Pmm → Summary × List (ℕ × List ℕ)
dump s = (
  record {
    total = s.total_pages;
    total_mib = pages_mib s.total_pages;
    free = s.free_pages;
    free_mib = pages_mib s.free_pages;
    used = sub32 s.total_pages s.free_pages;
    used_mib = pages_mib (sub32 s.total_pages s.free_pages);
    bitmap_size = s.bitmap_size_bytes;
  },
  dump_lines s 0 ((s.total_pages + 31) / 32),
)

-- A line of the list of regions: the first and the last address, the size in KiB and, from one MiB on, in MiB.
pub record Region : Type 0 where
  pub first : ℕ
  pub last : ℕ
  pub kib : ℕ
  pub mib : Option ℕ

-- The region of the pages from `run_start` up to `end`.
unfoldable pub region : ℕ → ℕ → Region
region run_start end =
    let bytes = (end - run_start) * 4096 % 2 ^ 32 in
    record {
      first = run_start * 4096 % 2 ^ 32;
      last = sub32 (end * 4096 % 2 ^ 32) 1;
      kib = bytes / 1024;
      mib = if leb 1048576 bytes then some (bytes / 1048576) else none;
    }

-- The `while` from `p`, with the pages that are left.
unfoldable pub regions_loop : Pmm → Bool → ℕ → ℕ → ℕ → Bool → List Region
regions_loop s dump_used_regions zero p run_start in_run =
    if in_run then region run_start p ∷ [] else []
regions_loop s dump_used_regions (suc left) p run_start in_run =
    let used = test_bit s.bitmap p in
    let is_target_region = if dump_used_regions then used else not used in
    let begun = regions_loop s dump_used_regions left (p + 1) p true in
    let ended = regions_loop s dump_used_regions left (p + 1) run_start false in
    let same = regions_loop s dump_used_regions left (p + 1) run_start in_run in
    if is_target_region && not in_run
    then begun
    else if not is_target_region && in_run
    then region run_start p ∷ ended
    else same

unfoldable pub dump_regions : Pmm → Bool → List Region
dump_regions s dump_used_regions =
    let scan_limit = if dump_used_regions then s.total_pages else s.max_ram_page in
    regions_loop s dump_used_regions scan_limit 0 0 false

unfoldable pub dump_used : Pmm → List Region
dump_used s = dump_regions s true

unfoldable pub dump_free : Pmm → List Region
dump_free s = dump_regions s false

-- ===== src/Pmm/Init/Limits.antt =====
-- The limits that `pmm_init` finds, and the state before anything is locked.
use os_learning.Base.{
  ℕ, zero, suc, ◌+◌, ◌*◌, ◌/◌, ◌%◌, ◌^◌, ◌≤◌, ◌<◌, ◌≡◌, refl, sym, true, false, arith, ltb, lt→ltb,
}
use os_learning.Base.Bits.{byte_test-zero}
use os_learning.BootInfo.{BootInfo, E820Entry}
use os_learning.Pmm.{Pmm, test_bit}
use os_learning.Pmm.Bitmap.{AreBytes}
use os_learning.Pmm.Count.{IsCounted, count_free}
use os_learning.Pmm.Init.{entry_end, max_phys_loop, max_ram_loop, reset}

-- The entries before the first PANIC-free limit: every region ends below 2 ^ 43.
abbrev pub AreSmall : BootInfo → Type 0
AreSmall b = (i : ℕ) → i < b.e820_count → (b.e820_map i).addr + (b.e820_map i).size < 2 ^ 43

module _ (e820_map : ℕ → E820Entry) where
  -- Over the same entries the RAM limit never passes the limit of all.
  max_ram-le-max_phys :
      (i rounds ram phys : ℕ)
      → ram ≤ phys
      → max_ram_loop e820_map i rounds ram ≤ max_phys_loop e820_map i rounds phys
  unfolding max_ram_loop max_phys_loop
  max_ram-le-max_phys i zero ram phys h = h
  max_ram-le-max_phys i (suc rounds) ram phys h =
      max_ram-le-max_phys (i + 1) rounds _ _ (ground arith)

  max_phys_loop-lt :
      (i rounds phys bound : ℕ)
      → phys < bound
      → ((j : ℕ) → j < i + rounds → entry_end (e820_map j) < bound)
      → max_phys_loop e820_map i rounds phys < bound
  unfolding max_phys_loop
  max_phys_loop-lt i zero phys bound h small = h
  max_phys_loop-lt i (suc rounds) phys bound h small =
      max_phys_loop-lt (i + 1) rounds _ bound (ground (arith, small i (omega arith)))
        λ j hj. small j (omega arith)

-- The pages that an array of zeros holds are free.
count_free_of_zeros :
    (bitmap : ℕ → ℕ) (n : ℕ)
    → ((i : ℕ) → i < n → test_bit bitmap i ≡ false)
    → count_free bitmap n ≡ n
unfolding count_free
count_free_of_zeros bitmap zero h = refl
count_free_of_zeros bitmap (suc n) h =
    ground (arith, h n (omega arith), count_free_of_zeros bitmap n (λ i hi. h i (omega arith)))

-- What is known of the state between step 5 and step 6.
pub record IsFresh (s : Pmm) : Type 0 where
  pub counts : IsCounted s
  pub all_free : (p : ℕ) → p < s.total_pages → test_bit s.bitmap p ≡ false

module _ (b : BootInfo) (s : Pmm) (small : AreSmall b) (bytes : AreBytes s.bitmap)
    (fits : (reset b s).bitmap_size_bytes ≤ 128 * 1024) where
  -- The limits before they are cut to 32 bits.
  max_phys : ℕ
  max_phys = max_phys_loop b.e820_map 0 b.e820_count 0

  max_phys-lt : max_phys < 2 ^ 43
  unfolding max_phys entry_end
  max_phys-lt =
      max_phys_loop-lt b.e820_map 0 b.e820_count 0 (2 ^ 43) (omega arith)
        λ j hj. omega (arith, small j (omega arith))

  total-le : (reset b s).total_pages ≤ 2 ^ 20
  unfolding reset max_phys
  total-le = omega (arith, fits, max_phys-lt)

  reset-free : (p : ℕ) → p < (reset b s).total_pages → test_bit (reset b s).bitmap p ≡ false
  unfolding reset max_phys test_bit
  reset-free p h =
      let inside : ltb (p / 8) (reset b s).bitmap_size_bytes ≡ true =
        lt→ltb _ _ (omega (arith, max_phys-lt)) in
      rw inside (byte_test-zero (p % 8))

  pub reset-IsFresh : IsFresh (reset b s)
  unfolding reset max_phys
  reset-IsFresh = record {
    counts = record {
      bytes = λ i. ground (arith, bytes i);
      counted = sym (count_free_of_zeros (reset b s).bitmap (reset b s).total_pages reset-free);
      ram =
          omega
            (arith, max_phys-lt, max_ram-le-max_phys b.e820_map 0 b.e820_count 0 0 (omega arith));
      fits = total-le;
    };
    all_free = reset-free;
  }

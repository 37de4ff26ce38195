-- ===== src/Pmm/Count.antt =====
-- `pmm_free_pages` counts the clear bits: how the count follows a page that is taken or freed, and
-- the invariant of the allocator.
use os_learning.Base.{
  ℕ, zero, suc, ◌+◌, ◌^◌, ◌≤◌, ◌<◌, ◌≡◌, refl, true, false, arith, ◌==◌, if◌then◌else◌,
}
use os_learning.Pmm.{Pmm, low_pages, set_bit, clear_bit, test_bit, take_page}
use os_learning.Pmm.Bitmap.{AreBytes, test_bit-set_bit, test_bit-clear_bit, set_bit-AreBytes}

-- The number of clear bits below page `n`.
unfoldable pub count_free : (ℕ → ℕ) → ℕ → ℕ
count_free bitmap zero = 0
count_free bitmap (suc n) = (if test_bit bitmap n then 0 else 1) + count_free bitmap n

count_free-le : (bitmap : ℕ → ℕ) (n : ℕ) → count_free bitmap n ≤ n
unfolding count_free
count_free-le bitmap zero = omega arith
count_free-le bitmap (suc n) = ground (arith, count_free-le bitmap n)

-- A free page below `n` makes the count positive.
pub count_free-pos :
    (bitmap : ℕ → ℕ) (n p : ℕ) → p < n → test_bit bitmap p ≡ false → 0 < count_free bitmap n
unfolding count_free
count_free-pos bitmap zero p h free = absurd (omega arith)
count_free-pos bitmap (suc n) p h free = ground (arith, count_free-pos bitmap n p)

module _ (bitmap : ℕ → ℕ) (bytes : AreBytes bitmap) (p : ℕ) where
  count_free-set_above : (n : ℕ) → n ≤ p → count_free (set_bit bitmap p) n ≡ count_free bitmap n
  unfolding count_free
  count_free-set_above zero h = refl
  count_free-set_above (suc n) h =
      ground (arith, test_bit-set_bit bitmap bytes p n, count_free-set_above n)

  count_free-set_bit :
      (n : ℕ)
      → p < n
      → test_bit bitmap p ≡ false
      → count_free (set_bit bitmap p) n + 1 ≡ count_free bitmap n
  unfolding count_free
  count_free-set_bit zero h free = absurd (omega arith)
  count_free-set_bit (suc n) h free =
      ground
        (arith, test_bit-set_bit bitmap bytes p n, count_free-set_above n, count_free-set_bit n)

  count_free-clear_above : (n : ℕ) → n ≤ p → count_free (clear_bit bitmap p) n ≡ count_free bitmap n
  unfolding count_free
  count_free-clear_above zero h = refl
  count_free-clear_above (suc n) h =
      ground (arith, test_bit-clear_bit bitmap bytes p n, count_free-clear_above n)

  pub count_free-clear_bit :
      (n : ℕ)
      → p < n
      → test_bit bitmap p ≡ true
      → count_free (clear_bit bitmap p) n ≡ count_free bitmap n + 1
  unfolding count_free
  count_free-clear_bit zero h used = absurd (omega arith)
  count_free-clear_bit (suc n) h used =
      ground (
        arith,
        test_bit-clear_bit bitmap bytes p n,
        count_free-clear_above n,
        count_free-clear_bit n,
      )

-- Between the loops of `pmm_init` and after them: the counter is the number of clear bits, RAM lies
-- within the managed pages, and those have their bits within the array of 128 KiB.
pub record IsCounted (s : Pmm) : Type 0 where
  pub bytes : AreBytes s.bitmap
  pub counted : s.free_pages ≡ count_free s.bitmap s.total_pages
  pub ram : s.max_ram_page ≤ s.total_pages
  pub fits : s.total_pages ≤ 2 ^ 20

-- The invariant of the running allocator: also, the low 2 MiB are never free.
pub record IsValid (s : Pmm) : Type 0 where
  pub counts : IsCounted s
  pub low : (p : ℕ) → p < low_pages → p < s.total_pages → test_bit s.bitmap p ≡ true

module _ (s : Pmm) (p : ℕ) (v : IsCounted s) (managed : p < s.total_pages)
    (free : test_bit s.bitmap p ≡ false) where
  pub free_pages-take_page : (take_page s p).free_pages + 1 ≡ s.free_pages
  unfolding take_page
  free_pages-take_page = omega (
    arith,
    v.counted,
    v.fits,
    count_free-le s.bitmap s.total_pages,
    count_free-pos s.bitmap s.total_pages p managed free,
  )

  pub take_page-IsCounted : IsCounted (take_page s p)
  unfolding take_page
  take_page-IsCounted = record {
    bytes = set_bit-AreBytes s.bitmap v.bytes p;
    counted = omega (
      arith,
      v.counted,
      v.fits,
      count_free-le s.bitmap s.total_pages,
      count_free-set_bit s.bitmap v.bytes p s.total_pages managed free,
    );
    ram = v.ram;
    fits = v.fits;
  }

module _ (s : Pmm) (v : IsCounted s) (p q : ℕ) where
  pub test_bit-take_page :
      test_bit (take_page s p).bitmap q ≡ (if p == q then true else test_bit s.bitmap q)
  unfolding take_page
  test_bit-take_page = test_bit-set_bit s.bitmap v.bytes p q

-- What `pmm_alloc_page` and `pmm_free_page` rely on: no free page, no count.
pub free_pages-lt : (s : Pmm) → IsCounted s → s.free_pages ≤ s.total_pages
free_pages-lt s v = omega (arith, v.counted, count_free-le s.bitmap s.total_pages)

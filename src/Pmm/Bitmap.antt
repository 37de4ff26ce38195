-- ===== src/Pmm/Bitmap.antt =====
-- The bitmap of pmm.c as a set of pages: `pmm_set_bit`, `pmm_clear_bit` and `pmm_test_bit`.
use os_learning.Base.{
  ℕ, ◌/◌, ◌%◌, ◌<◌, ◌≡◌, inl, inr, true, false, arith, ◌==◌, if◌then◌else◌, Bool-cases,
}
use os_learning.Base.Bits.{byte_test-set, byte_test-clear, byte_set-lt, byte_clear-lt}
use os_learning.Pmm.{set_bit, clear_bit, test_bit}

-- Every element of the array is a `uint8_t`.
abbrev pub AreBytes : (ℕ → ℕ) → Type 0
AreBytes bitmap = (i : ℕ) → bitmap i < 256

module _ (bitmap : ℕ → ℕ) (bytes : AreBytes bitmap) where
  -- After `pmm_set_bit(p)` page `p` tests as used, and every other page as before.
  pub test_bit-set_bit :
      (p q : ℕ) → test_bit (set_bit bitmap p) q ≡ (if p == q then true else test_bit bitmap q)
  unfolding test_bit set_bit
  test_bit-set_bit p q = elim (Bool-cases (p / 8 == q / 8)) [
    | inl same ↦ ground (
      arith,
      byte_test-set (bitmap (p / 8)) (p % 8) (q % 8) (bytes (p / 8)) (omega arith) (omega arith),
    )
    | inr other ↦ ground arith
  ]

  pub test_bit-clear_bit :
      (p q : ℕ) → test_bit (clear_bit bitmap p) q ≡ (if p == q then false else test_bit bitmap q)
  unfolding test_bit clear_bit
  test_bit-clear_bit p q = elim (Bool-cases (p / 8 == q / 8)) [
    | inl same ↦ ground (
      arith,
      byte_test-clear (bitmap (p / 8)) (p % 8) (q % 8) (bytes (p / 8)) (omega arith) (omega arith),
    )
    | inr other ↦ ground arith
  ]

  pub set_bit-AreBytes : (p : ℕ) → AreBytes (set_bit bitmap p)
  unfolding set_bit
  set_bit-AreBytes p i =
      ground (arith, bytes i, byte_set-lt (bitmap (p / 8)) (p % 8) (bytes (p / 8)) (omega arith))

  pub clear_bit-AreBytes : (p : ℕ) → AreBytes (clear_bit bitmap p)
  unfolding clear_bit
  clear_bit-AreBytes p i =
      ground (arith, bytes i, byte_clear-lt (bitmap (p / 8)) (p % 8) (bytes (p / 8)) (omega arith))

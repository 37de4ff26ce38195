-- ===== src/Base/Bits.antt =====
-- The bits of a byte: what `|= 1 << k`, `&= ~(1 << k)` and `& (1 << k)` do to them.
use Prim.Native.Nat.{ℕ, zero, suc, ◌-◌, ◌^◌, ◌<◌, bit_and, bit_or, bit_and-bitwise}
use mathlib.Core.Path.{◌≡◌, refl}
use mathlib.Core.Bool.{Bool, true, false, not, ◌&&◌}
use native.Mathlib.Omega.{arith}
use os_learning.Base.Tests.{ltb, ◌==◌, if◌then◌else◌}

-- A test of every number below a bound, which evaluates.
unfoldable pub passes : (ℕ → Bool) → ℕ → Bool
passes test zero = true
passes test (suc bound) = passes test bound && test bound

pub passes-at :
    (test : ℕ → Bool) (bound b : ℕ) → b < bound → passes test bound ≡ true → test b ≡ true
unfolding passes
passes-at test zero b below h = absurd (omega arith)
passes-at test (suc bound) b below h = ground (arith, passes-at test bound b)

-- `b | (1 << k)`, `b & ~(1 << k)` and `(b & (1 << k)) != 0` on a `uint8_t`.
unfoldable pub byte_set : ℕ → ℕ → ℕ
byte_set b k = bit_or b (2 ^ k)

unfoldable pub byte_clear : ℕ → ℕ → ℕ
byte_clear b k = bit_and b (255 - 2 ^ k)

unfoldable pub byte_test : ℕ → ℕ → Bool
byte_test b k = not (bit_and b (2 ^ k) == 0)

abbrev bool_eq : Bool → Bool → Bool
bool_eq true b = b
bool_eq false b = not b

bool_eq→eq : (a b : Bool) → bool_eq a b ≡ true → a ≡ b
bool_eq→eq a b h = ground arith

abbrev set_row : ℕ → ℕ → ℕ → Bool
set_row k j b =
    bool_eq (byte_test (byte_set b k) j) (if k == j then true else byte_test b j)
    && (ltb (byte_set b k) 256
        && (bool_eq (byte_test (byte_clear b k) j) (if k == j then false else byte_test b j)
            && ltb (byte_clear b k) 256))

byte_table : passes (λ k. passes (λ j. passes (λ b. set_row k j b) 256) 8) 8 ≡ true
unfolding passes byte_set byte_clear byte_test
byte_table = refl

byte_row : (b k j : ℕ) → b < 256 → k < 8 → j < 8 → set_row k j b ≡ true
byte_row b k j hb hk hj =
    passes-at (λ b. set_row k j b) 256 b hb
      (passes-at (λ j. passes (λ b. set_row k j b) 256) 8 j hj
        (passes-at (λ k. passes (λ j. passes (λ b. set_row k j b) 256) 8) 8 k hk byte_table))

module _ (b k j : ℕ) (hb : b < 256) (hk : k < 8) (hj : j < 8) where
  pub byte_test-set : byte_test (byte_set b k) j ≡ (if k == j then true else byte_test b j)
  byte_test-set = let r = byte_row b k j hb hk hj in ground arith

  pub byte_test-clear : byte_test (byte_clear b k) j ≡ (if k == j then false else byte_test b j)
  byte_test-clear = let r = byte_row b k j hb hk hj in ground arith

module _ (b k : ℕ) (hb : b < 256) (hk : k < 8) where
  pub byte_set-lt : byte_set b k < 256
  byte_set-lt = let r = byte_row b k 0 hb hk (omega arith) in ground arith

  pub byte_clear-lt : byte_clear b k < 256
  byte_clear-lt = let r = byte_row b k 0 hb hk (omega arith) in ground arith

pub byte_test-zero : (k : ℕ) → byte_test 0 k ≡ false
unfolding byte_test
byte_test-zero k = let z : bit_and 0 (2 ^ k) ≡ 0 = bit_and-bitwise 0 (2 ^ k) in rw z

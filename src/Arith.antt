-- ===== src/Arith.antt =====
-- lib/math.c. An `int32_t` is its bit pattern; C's division of signed numbers rounds towards zero.
pub mod Floor
use os_learning.Base.{ℕ, ◌+◌, ◌-◌, ◌/◌, ◌%◌, ◌^◌, Bool, ltb, leb, if◌then◌else◌}
use os_learning.Memory.{add32, sub32}

abbrev pub is_negative : ℕ → Bool
is_negative x = leb (2 ^ 31) x

abbrev pub magnitude : ℕ → ℕ
magnitude x = if leb (2 ^ 31) x then 2 ^ 32 - x else x

-- `x / n` and `x % n` on `int32_t`
abbrev pub quotient : ℕ → ℕ → ℕ
quotient x n =
    let q = magnitude x / magnitude n in
    if is_negative x
    then (if is_negative n then q else sub32 0 q)
    else if is_negative n
    then sub32 0 q
    else q

abbrev pub remainder : ℕ → ℕ → ℕ
remainder x n = let r = magnitude x % magnitude n in if is_negative x then sub32 0 r else r

-- `uint32_t`
unfoldable pub max : ℕ → ℕ → ℕ
max x y = if ltb y x then x else y

unfoldable pub min : ℕ → ℕ → ℕ
min x y = if ltb x y then x else y

unfoldable pub div : ℕ → ℕ → ℕ
div x n = if is_negative x then quotient (add32 (sub32 x n) 1) n else quotient x n

unfoldable pub mod_floor : ℕ → ℕ → ℕ
mod_floor x n = remainder (add32 (remainder x n) n) n

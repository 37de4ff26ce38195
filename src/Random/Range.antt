-- ===== src/Random/Range.antt =====
-- The bounds of `rand_range`.
use native.Mathlib.Nat.{mul-le-mul_right}
use os_learning.Base.{ℕ, suc, ◌+◌, ◌-◌, ◌*◌, ◌/◌, ◌≤◌, ◌<◌, ◌≡◌, ap, arith, if◌then◌else◌, ◌==◌}
use os_learning.Random.{rand_m, rand, rand_seed, rand_seed_with_time, rand_range}
use os_learning.Random.Fixed.{draws, rand-fixed}

rand-Below : (tick seed : ℕ) → rand tick seed < rand_m
unfolding rand rand_seed_with_time rand_seed
rand-Below tick seed = let s : ℕ = if seed == 0 then tick else seed in omega arith

scaled :
    (part min max : ℕ)
    → min ≤ max
    → part ≤ rand_m * (max - min)
    → (min ≤ (part + min * rand_m) / rand_m) × ((part + min * rand_m) / rand_m ≤ max)
scaled part min max le most = (omega arith, omega arith)

pub rand_range-bounds :
    (tick seed min max : ℕ)
    → min ≤ max
    → (min ≤ (rand_range tick seed min max).1) × ((rand_range tick seed min max).1 ≤ max)
unfolding rand_range
rand_range-bounds tick seed min max le =
    scaled (rand tick seed * (max - min)) min max le
      (mul-le-mul_right (max - min) (omega (arith, rand-Below tick seed)))

-- From its third call on, `rand_range(1, 1000)` returns 485.
pub rand_range-fixed :
    (ticks : ℕ → ℕ) (seed n : ℕ)
    → rand_range (ticks (suc (suc n))) (draws ticks (suc (suc n)) seed) 1 1000 ≡ (1040457664, 485)
unfolding rand_range
rand_range-fixed ticks seed n =
    ap (λ random. (random, (random * (1000 - 1) + 1 * rand_m) / rand_m)) (rand-fixed ticks seed n)

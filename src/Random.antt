-- ===== src/Random.antt =====
-- lib/rand.c: the linear congruential generator.
pub mod Fixed
pub mod Range
use os_learning.Base.{ℕ, zero, suc, ◌+◌, ◌-◌, ◌*◌, ◌/◌, ◌%◌, ◌^◌, ◌==◌, if◌then◌else◌}

abbrev pub rand_a : ℕ
rand_a = 33550336

abbrev pub rand_c : ℕ
rand_c = 8128

abbrev pub rand_m : ℕ
rand_m = 0x80000000

-- The static variable `seed` is the state: a function takes it and gives it back.
unfoldable pub rand_seed : ℕ → ℕ → ℕ
rand_seed new_seed seed = new_seed

unfoldable pub rand_seed_with_time : ℕ → ℕ → ℕ
rand_seed_with_time tick seed = rand_seed tick seed

-- The new seed, which is also what is returned; `tick` is what `getTick` returns.
unfoldable pub rand : ℕ → ℕ → ℕ
rand tick seed =
    let s = if seed == 0 then rand_seed_with_time tick seed else seed in
    (s * rand_a + rand_c) % 2 ^ 32 % rand_m

-- The new seed and the number. The source computes `rand() / rand_m * (max - min) + min` in `double`
-- and truncates: no step rounds where `min <= max < 2 ^ 22`, since every intermediate value is then
-- a multiple of 2 ^ -31 below 2 ^ 22. The only call asks for 1 and 1000.
unfoldable pub rand_range : ℕ → ℕ → ℕ → ℕ → ℕ × ℕ
rand_range tick seed min max =
    let random = rand tick seed in (random, (random * (max - min) + min * rand_m) / rand_m)

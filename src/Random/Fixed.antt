-- ===== src/Random/Fixed.antt =====
-- The generator does not leave its third number.
use os_learning.Base.{
  ℕ, zero, suc, ◌+◌, ◌*◌, ◌%◌, ◌^◌, ◌≡◌, ◌≢◌, false, ap, ◌∙◌, arith, ◌==◌, if◌then◌else◌,
}
use os_learning.Random.{rand_a, rand_c, rand_m, rand, rand_seed, rand_seed_with_time}

-- The seed after a number of calls, where the timer stands at `ticks i` at call `i`.
abbrev pub draws : (ℕ → ℕ) → ℕ → ℕ → ℕ
draws ticks zero seed = seed
draws ticks (suc n) seed = rand (ticks n) (draws ticks n seed)

abbrev next_seed : ℕ → ℕ
next_seed s = (s * rand_a + rand_c) % 2 ^ 32 % rand_m

-- The low 12 bits are the same after every call, the low 24 after every two.
next_seed-low : (s : ℕ) → next_seed s % 4096 ≡ 4032
next_seed-low s = omega arith

next_seed-middle : (s : ℕ) → s % 4096 ≡ 4032 → next_seed s % 16777216 ≡ 270272
next_seed-middle s h = omega arith

next_seed-all : (s : ℕ) → s % 16777216 ≡ 270272 → next_seed s ≡ 1040457664
next_seed-all s h = omega arith

rand-low : (tick seed : ℕ) → rand tick seed % 4096 ≡ 4032
unfolding rand rand_seed_with_time rand_seed
rand-low tick seed = next_seed-low (if seed == 0 then tick else seed)

rand-next_seed : (tick seed : ℕ) → seed ≢ 0 → rand tick seed ≡ next_seed seed
unfolding rand
rand-next_seed tick seed h = let t : (seed == 0) ≡ false = ground arith in rw t

-- Whatever the seed and the timer, the third call of `rand` and every later one return 1040457664.
pub rand-fixed : (ticks : ℕ → ℕ) (seed n : ℕ) → draws ticks (suc (suc (suc n))) seed ≡ 1040457664
rand-fixed ticks seed zero =
    let first : ℕ = rand (ticks 0) seed in
    let second : ℕ = rand (ticks 1) first in
    let low : first % 4096 ≡ 4032 = rand-low (ticks 0) seed in
    let middle : second % 16777216 ≡ 270272 =
      ap (λ s. s % 16777216) (rand-next_seed (ticks 1) first (λ e. omega (arith, e)))
      ∙ next_seed-middle first low in
    rand-next_seed (ticks 2) second (λ e. omega (arith, e)) ∙ next_seed-all second middle
rand-fixed ticks seed (suc n) =
    ap (rand (ticks (suc (suc (suc n))))) (rand-fixed ticks seed n)
    ∙ rand-next_seed (ticks (suc (suc (suc n)))) 1040457664 (λ e. omega (arith, e))

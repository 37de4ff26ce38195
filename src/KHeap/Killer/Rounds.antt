-- ===== src/KHeap/Killer/Rounds.antt =====
-- One round of the stress test.
use os_learning.Base.{
  ℕ, ◌+◌, ◌*◌, ◌%◌, ◌≤◌, ◌<◌, ◌≡◌, refl, sym, ap, ◌∙◌, subst, arith, true, false, Bool, List, [],
  ◌∷◌, length, ◌==◌, leb,
}
use os_learning.Memory.{Run, ok, panic, out_of_fuel, ◌>>=◌, ◌>>◌, assert}
use os_learning.Random.{rand_seed_with_time}
use os_learning.Sync.Locks.{locked_no}
use os_learning.KHeap.Api.{Kernel, validate}
use os_learning.KHeap.Invariant.{Range}
use os_learning.KHeap.Session.{IsSound}
use os_learning.KHeap.Room.{IsSound-validate}
use os_learning.KHeap.Killer.{Killer, alloc_step, free_step, repeat, kill_round}
use os_learning.KHeap.Killer.Slots.{live_of, live_of-none}
use os_learning.KHeap.Killer.Held.{Held, IsRoomy}
use os_learning.KHeap.Killer.Passes.{Passed, alloc_loop-Passed, free_loop-Passed}

-- Between two rounds no block is in use.
pub record Idle (r : Range) (calls : ℕ) (kernel : Kernel) : Type 0 where
  pub sound : IsSound r kernel.state []
  pub lock : kernel.kheap_lock ≡ locked_no
  pub near : sound.end ≤ r.end + 12288 * calls

Held-of_Idle :
    (r : Range) (calls : ℕ) (k : Killer) → Idle r calls k.kernel → Held r (λ j. false) 0 calls k
Held-of_Idle r calls k h =
    let none = live_of-none k.ptrs 400 in
    let back =
      subst (λ l. (w : IsSound r k.kernel.state l) × (w.end ≤ r.end + 12288 * calls)) (sym none)
        (h.sound, h.near) in
    record { sound = back.0; lock = h.lock; counted = ap (length {0}) none; near = back.1 }

Idle-of_Held :
    (r : Range) (calls : ℕ) (holding : ℕ → Bool) (k : Killer)
    → Held r holding 0 calls k
    → Idle r calls k.kernel
Idle-of_Held r calls holding k h =
    let moved =
      subst (λ l. (w : IsSound r k.kernel.state l) × (w.end ≤ r.end + 12288 * calls))
        (empty (live_of k.ptrs holding 400) h.counted) (h.sound, h.near) in
    record { sound = moved.0; lock = h.lock; near = moved.1 }
  where
    empty : (l : List ℕ) → length l ≡ 0 → l ≡ []
    empty [] e = refl
    empty (x ∷ l) e = absurd (omega (arith, e))

pub bind-ok :
    {A B : Type 0} {m : Run A} (f : A → Run B) {a : A} {b : Run B}
    → m ≡ ok a
    → f a ≡ b
    → (m >>= f) ≡ b
bind-ok f e e' = ap (λ q. q >>= f) e ∙ e'

>>=-assoc :
    {A B C : Type 0} (m : Run A) (f : A → Run B) (g : B → Run C)
    → (m >>= f >>= g) ≡ (m >>= λ x. f x >>= g)
>>=-assoc (ok a) f g = refl
>>=-assoc panic f g = refl
>>=-assoc out_of_fuel f g = refl

-- The six loops of a round and what follows, by its two halves.
halves :
    {A B : Type 0} (m : Run A) (f g h i j : A → Run A) (w : A → Run B) {a b : A} {res : Run B}
    → (m >>= f) ≡ ok a
    → (g a >>= h >>= i >>= j) ≡ ok b
    → w b ≡ res
    → (m >>= λ full.
        f full >>= λ half. g half >>= λ again. h again >>= λ odd. i odd >>= λ even. j even >>= w)
      ≡ res
halves m f g h i j w {a} e e' done =
    sym (
      >>=-assoc m f (λ half. g half >>= λ again. h again >>= λ odd. i odd >>= λ even. j even >>= w))
    ∙ bind-ok (λ half. g half >>= λ again. h again >>= λ odd. i odd >>= λ even. j even >>= w) e
        (sym (>>=-assoc (g a) h (λ odd. i odd >>= λ even. j even >>= w))
          ∙ sym (>>=-assoc (g a >>= h) i (λ even. j even >>= w))
          ∙ sym (>>=-assoc (g a >>= h >>= i) j w)
          ∙ bind-ok w e' done)

module _ (r : Range) (roomy : IsRoomy r) (fuel : ℕ) (enough : 802 ≤ fuel) where
  module _ (ticks : ℕ → ℕ) (calls : ℕ) (some_left : calls + 400 ≤ 2000) where
    abbrev fill_low : Killer → Run Killer
    fill_low = repeat (alloc_step fuel (λ i. i % 5 == 1) 0 0 ticks) 0 200

    abbrev fill_high : Killer → Run Killer
    fill_high = repeat (alloc_step fuel (λ i. leb 2 (i % 5)) 200 100 ticks) 0 200

    abbrev free_half : (ℕ → ℕ) → ℕ → Killer → Run Killer
    free_half slot first = repeat (free_step fuel slot first) 0 100

    -- The slots after the first two loops: the odd ones below 200.
    abbrev HasOdd : (ℕ → Bool) → Type 0
    HasOdd holding =
        ((t : ℕ) → t < 100 → holding (t * 2 + 1) ≡ true) × ((j : ℕ) → 200 ≤ j → holding j ≡ false)

    first_half :
        (k : Killer)
        → Idle r calls k.kernel
        → Passed r HasOdd 100 (calls + 200) (fill_low k >>= free_half (λ i. i * 2) 200)
    first_half k h =
        let full =
          alloc_loop-Passed r roomy fuel enough (λ i. i % 5 == 1) 0 0 ticks 200 0 calls (λ j. false)
            k (Held-of_Idle r calls k h) (omega arith) (omega arith) (omega arith)
            (λ j lo hi. refl) in
        let (filled, below, above) = full.slots in
        let half =
          free_loop-Passed r roomy fuel enough (λ i. i * 2) 200 (calls + 200)
            (λ s t ne e. ne (omega (arith, e))) (omega arith) 100 0 full.holding full.killer
            full.held (omega arith) (λ t lo hi. omega arith)
            (λ t lo hi. filled (t * 2) (omega arith) (omega arith)) in
        record {
          killer = half.killer;
          holding = half.holding;
          result = bind-ok (free_half (λ i. i * 2) 200) full.result half.result;
          held = half.held;
          slots = (
            λ t lt.
                half.slots (t * 2 + 1) (λ s lo hi e. omega (arith, e))
                ∙ filled (t * 2 + 1) (omega arith) (omega arith),
            λ j ge. half.slots j (λ s lo hi e. omega (arith, e)) ∙ above j (omega arith),
          );
        }

    second_half :
        (holding : ℕ → Bool) (k : Killer)
        → HasOdd holding
        → Held r holding 100 (calls + 200) k
        → Passed r
            (λ left. Unit {0})
            0
            (calls + 200 + 200)
            (fill_high k
              >>= free_half (λ i. 200 + i * 2 + 1) 300
              >>= free_half (λ i. i * 2 + 1) 200
              >>= free_half (λ i. 200 + i * 2) 100)
    second_half holding k (odd, none) h =
        let again =
          alloc_loop-Passed r roomy fuel enough (λ i. leb 2 (i % 5)) 200 100 ticks 200 0
            (calls + 200) holding k h (omega arith) (omega arith) (omega arith)
            (λ j lo hi. none j lo) in
        let (filled, below, above) = again.slots in
        let third =
          free_loop-Passed r roomy fuel enough (λ i. 200 + i * 2 + 1) 300 (calls + 200 + 200)
            (λ s t ne e. ne (omega (arith, e))) (omega arith) 100 0 again.holding again.killer
            again.held (omega arith) (λ t lo hi. omega arith)
            (λ t lo hi. filled (200 + t * 2 + 1) (omega arith) (omega arith)) in
        let fourth =
          free_loop-Passed r roomy fuel enough (λ i. i * 2 + 1) 200 (calls + 200 + 200)
            (λ s t ne e. ne (omega (arith, e))) (omega arith) 100 0 third.holding third.killer
            third.held (omega arith) (λ t lo hi. omega arith)
            (λ t lo hi.
              third.slots (t * 2 + 1) (λ s lo' hi' e. omega (arith, e))
              ∙ below (t * 2 + 1) (omega arith)
              ∙ odd t (omega arith)) in
        let last =
          free_loop-Passed r roomy fuel enough (λ i. 200 + i * 2) 100 (calls + 200 + 200)
            (λ s t ne e. ne (omega (arith, e))) (omega arith) 100 0 fourth.holding fourth.killer
            fourth.held (omega arith) (λ t lo hi. omega arith)
            (λ t lo hi.
              fourth.slots (200 + t * 2) (λ s lo' hi' e. omega (arith, e))
              ∙ third.slots (200 + t * 2) (λ s lo' hi' e. omega (arith, e))
              ∙ filled (200 + t * 2) (omega arith) (omega arith)) in
        record {
          killer = last.killer;
          holding = last.holding;
          result =
              bind-ok (free_half (λ i. 200 + i * 2) 100)
                (bind-ok (free_half (λ i. i * 2 + 1) 200)
                  (bind-ok (free_half (λ i. 200 + i * 2 + 1) 300) again.result third.result)
                  fourth.result)
                last.result;
          held = last.held;
          slots = tt;
        }

    pub kill_round-Idle :
        (garbage : ℕ → ℕ) (k : Killer)
        → Idle r calls k.kernel
        → (k' : Killer) × (kill_round fuel (record { ticks = ticks; garbage = garbage }) k ≡ ok k')
          × Idle r (calls + 200 + 200) k'.kernel
    unfolding kill_round
    kill_round-Idle garbage k h =
        let half = first_half (record k { ptrs = garbage }) h in
        let last = second_half half.holding half.killer half.slots half.held in
        let idle = Idle-of_Held r (calls + 200 + 200) last.holding last.killer last.held in
        (
          record last.killer { seed = rand_seed_with_time (ticks 400) last.killer.seed },
          halves (fill_low (record k { ptrs = garbage })) (free_half (λ i. i * 2) 200) fill_high
              (free_half (λ i. 200 + i * 2 + 1) 300) (free_half (λ i. i * 2 + 1) 200)
              (free_half (λ i. 200 + i * 2) 100)
              (λ last'. validate fuel last'.kernel.state >>= λ live.
                assert (live == 0)
                >> ok (record last' { seed = rand_seed_with_time (ticks 400) last'.seed }))
              half.result last.result
              (rw (IsSound-validate r last.killer.kernel.state [] fuel idle.sound (omega arith))
                refl),
          idle,
        )

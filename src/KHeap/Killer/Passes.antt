-- ===== src/KHeap/Killer/Passes.antt =====
-- The loops of the stress test.
use os_learning.Base.{
  ℕ, zero, suc, ◌+◌, ◌-◌, ◌≤◌, ◌<◌, ◌≡◌, refl, sym, ap, ◌∙◌, subst, ◌≢◌, arith, true, false, Bool,
  update, update_self, update_ne, ◌==◌, Bool-cases, inl, inr, ==_iff,
}
use os_learning.Memory.{Run, ok, ◌>>=◌}
use os_learning.KHeap.Invariant.{Range}
use os_learning.KHeap.Killer.{Killer, alloc_step, free_step, repeat}
use os_learning.KHeap.Killer.Held.{Held, IsRoomy, alloc_step-Held, free_step-Held}

-- A part of the test returns, and the slots that hold a block are then as `P` says.
pub record Passed (r : Range) (P : (ℕ → Bool) → Type 0) (number calls : ℕ) (res : Run Killer)
    : Type 0 where
  pub killer : Killer
  pub holding : ℕ → Bool
  pub result : res ≡ ok killer
  pub held : Held r holding number calls killer
  pub slots : P holding

-- The slots from `lo` to `hi` are filled, the others as before.
abbrev pub Filled : (ℕ → Bool) → ℕ → ℕ → (ℕ → Bool) → Type 0
Filled holding lo hi holding' =
    ((j : ℕ) → lo ≤ j → j < hi → holding' j ≡ true)
    × ((j : ℕ) → j < lo → holding' j ≡ holding j)
    × ((j : ℕ) → hi ≤ j → holding' j ≡ holding j)

-- All slots but those freed are as before.
abbrev pub Emptied : (ℕ → Bool) → (ℕ → ℕ) → ℕ → ℕ → (ℕ → Bool) → Type 0
Emptied holding slot i n holding' =
    (j : ℕ) → ((t : ℕ) → i ≤ t → t < n → j ≢ slot t) → holding' j ≡ holding j

module _ (r : Range) (roomy : IsRoomy r) (fuel : ℕ) (enough : 802 ≤ fuel) where
  pub alloc_loop-Passed :
      (aligned : ℕ → Bool) (base first : ℕ) (ticks : ℕ → ℕ) (n i calls : ℕ) (holding : ℕ → Bool)
      (k : Killer)
      → Held r holding (first + i) calls k
      → first + i + n ≤ 400
      → calls + n ≤ 2000
      → i + n + base ≤ 400
      → ((j : ℕ) → i + base ≤ j → j < i + n + base → holding j ≡ false)
      → Passed r
          (Filled holding (i + base) (i + n + base))
          (first + i + n)
          (calls + n)
          (repeat (alloc_step fuel aligned base first ticks) i n k)
  unfolding repeat
  alloc_loop-Passed aligned base first ticks zero i calls holding k h most some_left within empty =
      record {
        killer = k;
        holding = holding;
        result = refl;
        held =
            subst (λ c. Held r holding c (calls + 0) k) (omega arith)
              (subst (λ c. Held r holding (first + i) c k) (omega arith) h);
        slots = (λ j lo hi. absurd (omega arith), λ j lt. refl, λ j ge. refl);
      }
  alloc_loop-Passed aligned base first ticks (suc n) i calls holding k h most some_left within
        empty =
      let (k', e, h') =
        alloc_step-Held r roomy fuel enough aligned base first ticks i calls (first + i) holding k h
          refl (omega arith) (omega arith) (omega arith)
          (empty (i + base) (omega arith) (omega arith)) in
      let holding' = update holding (i + base) true in
      let next =
        alloc_loop-Passed aligned base first ticks n (suc i) (suc calls) holding' k'
          (subst (λ c. Held r holding' c (suc calls) k') (omega arith) h') (omega arith)
          (omega arith) (omega arith)
          (λ j lo hi.
            update_ne holding (i + base) j true (λ e. omega (arith, e))
            ∙ empty j (omega arith) (omega arith)) in
      let (filled, below, above) = next.slots in
      record {
        killer = next.killer;
        holding = next.holding;
        result =
            ap (λ m. m >>= repeat (alloc_step fuel aligned base first ticks) (suc i) n) e
            ∙ next.result;
        held =
            subst (λ c. Held r next.holding c (calls + suc n) next.killer) (omega arith)
              (subst (λ c. Held r next.holding (first + suc i + n) c next.killer) (omega arith)
                next.held);
        slots = (
          λ j lo hi. elim (Bool-cases (i + base == j)) [
            | inl here ↦
                let at = (==_iff (i + base) j).0 here in
                below j (omega (arith, at))
                ∙ ap holding' (sym at)
                ∙ update_self holding (i + base) true
            | inr later ↦
                let apart : i + base ≢ j = λ at. (let t = (==_iff (i + base) j).1 at in cc) in
                filled j (omega (arith, apart)) (omega arith)
          ],
          λ j lt.
              below j (omega arith) ∙ update_ne holding (i + base) j true (λ e. omega (arith, e)),
          λ j ge.
              above j (omega arith) ∙ update_ne holding (i + base) j true (λ e. omega (arith, e)),
        );
      }

  pub free_loop-Passed :
      (slot : ℕ → ℕ) (first calls : ℕ)
      → ((s t : ℕ) → s ≢ t → slot s ≢ slot t)
      → first ≤ 400
      → (n i : ℕ) (holding : ℕ → Bool) (k : Killer) → Held r holding (first - i) calls k
      → i + n ≤ first
      → ((t : ℕ) → i ≤ t → t < i + n → slot t < 400)
      → ((t : ℕ) → i ≤ t → t < i + n → holding (slot t) ≡ true)
      → Passed r
          (Emptied holding slot i (i + n))
          (first - (i + n))
          calls
          (repeat (free_step fuel slot first) i n k)
  unfolding repeat
  free_loop-Passed slot first calls apart most zero i holding k h le within there = record {
    killer = k;
    holding = holding;
    result = refl;
    held = subst (λ c. Held r holding c calls k) (omega arith) h;
    slots = λ j others. refl;
  }
  free_loop-Passed slot first calls apart most (suc n) i holding k h le within there =
      let (k', e, h') =
        free_step-Held r roomy fuel enough slot first i calls (first - i) holding k h refl
          (omega arith) most (within i (omega arith) (omega arith))
          (there i (omega arith) (omega arith)) in
      let holding' = update holding (slot i) false in
      let next =
        free_loop-Passed slot first calls apart most n (suc i) holding' k'
          (subst (λ c. Held r holding' c calls k') (omega arith) h') (omega arith)
          (λ t lo hi. within t (omega arith) (omega arith))
          (λ t lo hi.
            update_ne holding (slot i) (slot t) false (apart i t (λ e. omega (arith, e)))
            ∙ there t (omega arith) (omega arith)) in
      record {
        killer = next.killer;
        holding = next.holding;
        result = ap (λ m. m >>= repeat (free_step fuel slot first) (suc i) n) e ∙ next.result;
        held = subst (λ c. Held r next.holding c calls next.killer) (omega arith) next.held;
        slots = λ j others.
            next.slots j (λ t lo hi. others t (omega arith) (omega arith))
            ∙ update_ne holding (slot i) j false
                (λ e. others i (omega arith) (omega arith) (sym e));
      }

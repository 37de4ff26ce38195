-- ===== src/Sync/Locks.antt =====
-- The operations of yieldlock.c and spinlock.c on one processor. A loop that waits takes fuel: a
-- lock that nobody releases exhausts any fuel.
use Prim.Native.Nat.{bit_and}
use os_learning.Base.{
  ℕ, zero, suc, ◌+◌, ◌-◌, ◌≡◌, refl, ◌≢◌, Bool, not, arith, ◌==◌, if◌then◌else◌, Bool-cases, inl,
  inr, ◌⊎◌,
}
use os_learning.Memory.{Run, ok, out_of_fuel, ◌>>=◌}

abbrev pub locked_yes : ℕ
locked_yes = 1

abbrev pub locked_no : ℕ
locked_no = 0

-- `xchg`: the old value, and the new content.
unfoldable pub atomic_exchange : ℕ → ℕ → ℕ × ℕ
atomic_exchange content val = (content, val)

-- `while (atomic_exchange(&lock, LOCKED_YES) != LOCKED_NO)`
unfoldable pub spin : ℕ → ℕ → Run ℕ
unfolding atomic_exchange
spin zero lock = out_of_fuel
spin (suc fuel) lock =
    let (old, lock') = atomic_exchange lock locked_yes in
    let rest = spin fuel lock' in if not (old == locked_no) then rest else ok lock'

unfoldable pub yieldlock_init : ℕ → ℕ
yieldlock_init lock = locked_no

unfoldable pub yieldlock_lock : ℕ → ℕ → Run ℕ
yieldlock_lock fuel lock = spin fuel lock

unfoldable pub yieldlock_trylock : ℕ → Bool × ℕ
unfolding atomic_exchange
yieldlock_trylock lock =
    let (old, lock') = atomic_exchange lock locked_yes in (old == locked_no, lock')

unfoldable pub yieldlock_unlock : ℕ → ℕ
yieldlock_unlock lock = locked_no

-- `spinlock_t`, with the processor's interrupt flag beside it.
pub record Spinlock : Type 0 where
  pub lock : ℕ
  pub interrupt_mask : ℕ

pub record Cpu : Type 0 where
  pub splock : Spinlock
  pub eflags : ℕ

-- Bit 9 of EFLAGS.
abbrev pub if_flag : ℕ
if_flag = 512

unfoldable pub disable_interrupts : ℕ → ℕ
disable_interrupts eflags = if bit_and eflags if_flag == 0 then eflags else eflags - if_flag

unfoldable pub enable_interrupts : ℕ → ℕ
enable_interrupts eflags = if bit_and eflags if_flag == 0 then eflags + if_flag else eflags

unfoldable pub spinlock_init : Spinlock → Spinlock
spinlock_init splock = record { lock = locked_no; interrupt_mask = 0 }

unfoldable pub spinlock_lock : ℕ → Spinlock → Run Spinlock
spinlock_lock fuel splock = spin fuel splock.lock >>= λ lock. ok (record splock { lock = lock })

unfoldable pub spinlock_unlock : Spinlock → Spinlock
spinlock_unlock splock = record splock { lock = locked_no }

unfoldable pub spinlock_lock_irqsave : ℕ → Cpu → Run Cpu
spinlock_lock_irqsave fuel c = do
  let eflags = c.eflags
  let masked = disable_interrupts c.eflags
  lock ← spin fuel c.splock.lock
  ok (record {
    splock = record { lock = lock; interrupt_mask = bit_and eflags if_flag };
    eflags = masked;
  })

unfoldable pub spinlock_unlock_irqrestore : Cpu → Cpu
spinlock_unlock_irqrestore c =
    let released : Spinlock = record (c.splock) { lock = locked_no } in
    record {
      splock = released;
      eflags = if not (released.interrupt_mask == 0) then enable_interrupts c.eflags else c.eflags;
    }

-- The waiting loop of the locks ends in its first round with the lock taken if the lock is free,
-- and if it is held does not end within any number of rounds.
pub spin_lem :
    (fuel lock : ℕ)
    → ((lock ≡ locked_no) × (spin (suc fuel) lock ≡ ok locked_yes))
      ⊎ ((lock ≢ locked_no) × (spin fuel lock ≡ out_of_fuel))
unfolding spin
spin_lem fuel lock = elim (Bool-cases (lock == 0)) [
  | inl free ↦ inl (ground arith, rw free)
  | inr held ↦ inr (ground arith, held_spins fuel lock (ground arith))
]
  where
    held_spins : (fuel lock : ℕ) → lock ≢ 0 → spin fuel lock ≡ out_of_fuel
    held_spins zero lock h = refl
    held_spins (suc fuel) lock h = ground (arith, held_spins fuel 1 (omega arith))

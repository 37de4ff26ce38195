-- ===== src/Sync/Threads.antt =====
-- Threads that share a yield lock: the rounds of `yieldlock_lock` and the calls of
-- `yieldlock_unlock`, in any order. A round is one atomic exchange, so it is one step.
use os_learning.Base.{
  ℕ, ◌≡◌, ◌≢◌, refl, Bool, true, false, arith, ◌==◌, if◌then◌else◌, Bool-cases, inl, inr, update,
}
use os_learning.Sync.Locks.{
  locked_no, locked_yes, atomic_exchange, yieldlock_init, yieldlock_unlock,
}

-- The lock's word, and which threads are between locking and unlocking.
pub record System : Type 0 where
  pub lock : ℕ
  pub holds : ℕ → Bool

-- One round of `while (atomic_exchange(&lock, LOCKED_YES) != LOCKED_NO)`.
unfoldable pub round : System → ℕ → System
unfolding atomic_exchange
round s thread =
    let (old, lock') = atomic_exchange s.lock locked_yes in
    record {
      lock = lock';
      holds = if old == locked_no then update s.holds thread true else s.holds;
    }

unfoldable pub release : System → ℕ → System
unfolding yieldlock_unlock
release s thread = record { lock = yieldlock_unlock s.lock; holds = update s.holds thread false }

-- A thread that does not hold the lock tries to take it; one that holds it lets it go.
pub data Step (s : System) : System → Type 0 where
  tries : (thread : ℕ) → s.holds thread ≡ false → Step s (round s thread)
  leaves : (thread : ℕ) → s.holds thread ≡ true → Step s (release s thread)

-- What the threads can bring about from the lock's initialisation.
pub data Reachable : System → Type 0 where
  start : (lock : ℕ) → Reachable (record { lock = yieldlock_init lock; holds = λ thread. false })
  next : {s s' : System} → Reachable s → Step s s' → Reachable s'

-- A holder keeps the lock taken, and is the only one.
record IsExclusive (s : System) : Type 0 where
  taken : (t : ℕ) → s.holds t ≡ true → s.lock ≡ locked_yes
  alone : (t u : ℕ) → s.holds t ≡ true → s.holds u ≡ true → t ≡ u

round-IsExclusive : (s : System) (thread : ℕ) → IsExclusive s → IsExclusive (round s thread)
unfolding round
round-IsExclusive s thread v = elim (Bool-cases (s.lock == locked_no)) [
  | inl free ↦
      let nobody : (t : ℕ) → s.holds t ≡ false = λ t. ground (arith, v.taken t) in
      record { taken = λ t h. refl; alone = λ t u h k. ground (arith, free, nobody t, nobody u) }
  | inr held ↦ record { taken = λ t h. refl; alone = λ t u h k. ground (arith, held, v.alone t u) }
]

release-IsExclusive :
    (s : System) (thread : ℕ)
    → s.holds thread ≡ true
    → IsExclusive s
    → IsExclusive (release s thread)
unfolding release
release-IsExclusive s thread owner v =
    let nobody : (t : ℕ) → update s.holds thread false t ≡ false = λ t.
      elim (Bool-cases (s.holds t)) [
        | inl h ↦ let same : thread ≡ t = v.alone thread t owner h in ground (arith, same)
        | inr h ↦ ground (arith, h)
      ] in
    record {
      taken = λ t h. absurd (ground (arith, nobody t, h));
      alone = λ t u h k. absurd (ground (arith, nobody t, h));
    }

Reachable-IsExclusive : (s : System) → Reachable s → IsExclusive s
Reachable-IsExclusive s (start lock) = record { taken = λ t h. cc; alone = λ t u h k. cc }
Reachable-IsExclusive s (next {s = before} r (tries thread out)) =
    round-IsExclusive before thread (Reachable-IsExclusive before r)
Reachable-IsExclusive s (next {s = before} r (leaves thread owner)) =
    release-IsExclusive before thread owner (Reachable-IsExclusive before r)

-- However the threads' rounds of `yieldlock_lock` and calls of `yieldlock_unlock` by a holder
-- follow each other from the lock's initialisation, while a thread holds the lock no other one
-- does.
pub mutual_exclusion :
    (s : System) (t u : ℕ) → Reachable s → s.holds t ≡ true → t ≢ u → s.holds u ≡ false
mutual_exclusion s t u r h ne = elim (Bool-cases (s.holds u)) [
  | inl both ↦ absurd (ne ((Reachable-IsExclusive s r).alone t u h both))
  | inr alone ↦ alone
]

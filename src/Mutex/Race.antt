-- ===== src/Mutex/Race.antt =====
-- Where the two accesses of `try_lock` are two steps, threads meet inside.
use kinnow_os.Prelude.{ℕ, ◌≡◌, ◌≢◌, [], ◌∷◌, arith}
use kinnow_os.Mutex.{unlocked, try_lock, unlock, waiting, inside, System, access, advance, run}

-- Two threads that wait for a free lock are inside together, if each tests the lock before the other
-- takes it; and when one leaves, the lock is free while the other is still inside.
pub run-meets :
    (i j : ℕ) (s : System)
    → i ≢ j
    → s.lock ≡ unlocked
    → s.place i ≡ waiting
    → s.place j ≡ waiting
    → ((run (i ∷ j ∷ i ∷ j ∷ []) s).place i ≡ inside)
      × ((run (i ∷ j ∷ i ∷ j ∷ []) s).place j ≡ inside)
      × ((run (i ∷ j ∷ i ∷ j ∷ i ∷ []) s).lock ≡ unlocked)
      × ((run (i ∷ j ∷ i ∷ j ∷ i ∷ []) s).place j ≡ inside)
unfolding run advance access unlock
run-meets i j s ne free hi hj = ground arith

-- A thread that is not interrupted between the two accesses does what `try_lock` says.
pub run-try_lock :
    (i : ℕ) (s : System)
    → s.lock ≡ unlocked
    → s.place i ≡ waiting
    → ((run (i ∷ i ∷ []) s).lock ≡ (try_lock s.lock).1) × ((run (i ∷ i ∷ []) s).place i ≡ inside)
unfolding run advance access try_lock
run-try_lock i s free hi = ground arith

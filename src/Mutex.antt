-- ===== src/Mutex.antt =====
-- kernel/mutex.hxx: the lock of a scope, as threads use it. A thread outside of the scope comes to
-- wait in the loop of `lock`, and `unlock` ends the scope. In `advance` a step is one access to the
-- lock, as the processor makes it; in `Step` a call of `try_lock` is one step.
mod Atomic
mod Race
mod Tests
use Prim.Native.Nat.{ℕ}
use native.Mathlib.Decide.{ℕ_discrete}
use kinnow_os.Prelude.{Bool, true, false, ◌==◌, ◌≡◌, if◌then◌else◌, List, [], ◌∷◌}
use mathlib.Core.Logic.{ite}

abbrev pub unlocked : ℕ
unlocked = 0

abbrev pub locked : ℕ
locked = 1

-- `mutex::try_lock`, with the lock afterwards.
unfoldable pub try_lock : ℕ → Bool × ℕ
try_lock lock = if lock == locked then (false, lock) else (true, locked)

-- `mutex::unlock`
unfoldable pub unlock : ℕ → ℕ
unlock lock = unlocked

-- Where a thread stands; `saw_free` is between the test of `try_lock` and its assignment.
pub data Place : Type 0 where
  outside : Place
  waiting : Place
  saw_free : Place
  inside : Place

pub record System : Type 0 where
  pub lock : ℕ
  pub place : ℕ → Place

abbrev pub update : (ℕ → Place) → ℕ → Place → ℕ → Place
update f i a j = ite (ℕ_discrete i j) a (f j)

-- One access to the lock.
unfoldable pub access : ℕ → Place → ℕ × Place
unfolding unlock
access lock outside = (lock, waiting)
access lock waiting = (lock, if lock == locked then waiting else saw_free)
access lock saw_free = (locked, inside)
access lock inside = (unlock lock, outside)

unfoldable pub advance : ℕ → System → System
unfolding access
advance i s =
    let (lock, place) = access s.lock (s.place i) in
    record { lock = lock; place = update s.place i place }

-- The threads of a list, each for one access.
unfoldable pub run : List ℕ → System → System
unfolding advance
run [] s = s
run (i ∷ is) s = run is (advance i s)

-- What thread `i` does with the result of `try_lock`: the loop of `lock` goes on, or ends.
unfoldable pub after_attempt : ℕ → Bool × ℕ → System → System
after_attempt i (true, lock) s = record { lock = lock; place = update s.place i inside }
after_attempt i (false, lock) s = record { lock = lock; place = s.place }

-- One thread begins to wait, calls `try_lock`, or leaves its scope.
pub data Step (s : System) : System → Type 0 where
  arrive :
      (i : ℕ)
      → s.place i ≡ outside
      → Step s (record { lock = s.lock; place = update s.place i waiting })
  attempt : (i : ℕ) → s.place i ≡ waiting → Step s (after_attempt i (try_lock s.lock) s)
  leave :
      (i : ℕ)
      → s.place i ≡ inside
      → Step s (record { lock = unlock s.lock; place = update s.place i outside })

abbrev pub start : System
start = record { lock = unlocked; place = λ _. outside }

pub data Reach : System → Type 0 where
  here : Reach start
  next : {s t : System} → Reach s → Step s t → Reach t

-- ===== src/Mutex/Tests.antt =====
-- Three threads and a lock, and instances of the theorems.
use native.Mathlib.Decide.{ℕ_discrete}
use kinnow_os.Prelude.{ℕ, ◌≡◌, ◌≢◌, ◌↔◌, refl, true, [], ◌∷◌, arith}
use kinnow_os.Mutex.{
  unlocked, try_lock, Place, waiting, inside, System, run, Reach, here, next, arrive, attempt,
  after_attempt, update,
}
use kinnow_os.Mutex.Atomic.{mutual_exclusion}
use kinnow_os.Mutex.Race.{run-meets}

abbrev all_waiting : System
all_waiting = record { lock = unlocked; place = λ _. waiting }

run-meets_example :
    ((run (3 ∷ 5 ∷ 3 ∷ 5 ∷ []) all_waiting).place 3 ≡ inside)
    × ((run (3 ∷ 5 ∷ 3 ∷ 5 ∷ []) all_waiting).place 5 ≡ inside)
    × ((run (3 ∷ 5 ∷ 3 ∷ 5 ∷ 3 ∷ []) all_waiting).lock ≡ unlocked)
    × ((run (3 ∷ 5 ∷ 3 ∷ 5 ∷ 3 ∷ []) all_waiting).place 5 ≡ inside)
run-meets_example = run-meets 3 5 all_waiting (λ e. omega arith) refl refl refl

abbrev two_waiting : System
two_waiting = record {
  lock = unlocked;
  place = update (update (λ _. Place.outside) 0 waiting) 1 waiting;
}

abbrev one_inside : System
one_inside = after_attempt 0 (try_lock unlocked) two_waiting

one_inside-Reach : Reach one_inside
unfolding ℕ_discrete
one_inside-Reach = next (next (next here (arrive 0 refl)) (arrive 1 refl)) (attempt 0 refl)

mutual_exclusion_example :
    ((i j : ℕ) → one_inside.place i ≡ inside → one_inside.place j ≡ inside → i ≡ j)
    × (((try_lock one_inside.lock).0 ≡ true) ↔ ((i : ℕ) → one_inside.place i ≢ inside))
mutual_exclusion_example = mutual_exclusion one_inside-Reach

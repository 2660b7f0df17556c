-- ===== src/Mutex/Atomic.antt =====
-- Where a call of `try_lock` is one step, the lock keeps the threads apart.
use kinnow_os.Prelude.{ℕ, ◌≡◌, ◌≢◌, ◌↔◌, inl, inr, refl, true, Bool-cases, ◌==◌, arith}
use kinnow_os.Mutex.{
  locked, try_lock, unlock, inside, System, after_attempt, Step, arrive, attempt, leave, Reach,
  here, next,
}

-- The lock is taken exactly while a thread is inside, and then by that one alone.
record IsExclusive (s : System) : Type 0 where
  taken : (i : ℕ) → s.place i ≡ inside → s.lock ≡ locked
  alone : (i j : ℕ) → s.place i ≡ inside → s.place j ≡ inside → i ≡ j
  holder : s.lock ≡ locked → (i : ℕ) × (s.place i ≡ inside)

Step-IsExclusive : {s t : System} → Step s t → IsExclusive s → IsExclusive t
unfolding after_attempt try_lock unlock
Step-IsExclusive {s} (arrive i e) x = record {
  taken = λ a ha. ground (arith, x.taken a);
  alone = λ a b ha hb. ground (arith, x.alone a b);
  holder = λ h. let (a, ha) = x.holder h in (a, ground arith);
}
Step-IsExclusive {s} (attempt i e) x = elim (Bool-cases (s.lock == locked)) [
  | inl busy ↦ rw busy x
  | inr free ↦ rw free record {
    taken = λ a ha. refl;
    alone = λ a b ha hb. ground (arith, x.taken a, x.taken b);
    holder = λ h. (i, ground arith);
  }
]
Step-IsExclusive {s} (leave i e) x = record {
  taken = λ a ha. ground (arith, x.alone a i);
  alone = λ a b ha hb. ground (arith, x.alone a i);
  holder = λ h. absurd (omega arith);
}

Reach-IsExclusive : {s : System} → Reach s → IsExclusive s
Reach-IsExclusive here = record {
  taken = λ i h. cc;
  alone = λ i j h. cc;
  holder = λ h. absurd (omega arith);
}
Reach-IsExclusive (next r st) = Step-IsExclusive st (Reach-IsExclusive r)

-- If the calls of `try_lock` do not interrupt one another, then in every reachable state two
-- threads inside are one, and `try_lock` succeeds exactly if no thread is inside.
pub mutual_exclusion :
    {s : System}
    → Reach s
    → ((i j : ℕ) → s.place i ≡ inside → s.place j ≡ inside → i ≡ j)
      × (((try_lock s.lock).0 ≡ true) ↔ ((i : ℕ) → s.place i ≢ inside))
unfolding try_lock
mutual_exclusion {s} r =
    let x = Reach-IsExclusive r in
    (
      x.alone,
      (
        λ ok i h. ground (arith, x.taken i),
        λ none_inside. elim (Bool-cases (s.lock == locked)) [
          | inl busy ↦ let (a, ha) = x.holder (ground arith) in absurd (none_inside a ha)
          | inr free ↦ rw free
        ],
      ),
    )

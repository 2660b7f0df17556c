-- ===== src/Timeshare/Removal.antt =====
-- Jobs and tasks without one of their parts.
use kinnow_os.Prelude.{
  ℕ, zero, suc, ◌+◌, ◌<◌, ◌≡◌, refl, List, [], ◌∷◌, arith, ltb, if◌then◌else◌, Bool-cases, inl, inr,
  length,
}
use kinnow_os.Timeshare.{Task, Job, remove_task, remove_thread}
use kinnow_os.Storage.DynamicList.Contents.{remove_at}

length-remove_at :
    {A : Type 0} (xs : List A) (k : ℕ) → k < length xs → length (remove_at xs k) + 1 ≡ length xs
length-remove_at [] k lt = absurd (omega arith)
length-remove_at (x ∷ xs) zero lt = omega arith
length-remove_at (x ∷ xs) (suc k) lt = omega (arith, length-remove_at xs k (omega arith))

-- An index that the scheduler keeps is inside its list, or 0 for an empty list.
abbrev pub IsIndex : ℕ → ℕ → Type 0
IsIndex i n = (0 < n → i < n) × (n ≡ 0 → i ≡ 0)

module _ {Thread : Type 0} where
  -- Removing a task takes it out of the list of the job, or is refused with the job as it was where
  -- there is no such task; the current task is an index of the list afterwards, if it was before.
  pub remove_task_lem :
      (j : Job Thread) (k : ℕ)
      → IsIndex j.current_task (length j.tasks)
      → let (ok, j') = remove_task j k in
        (ok ≡ ltb k (length j.tasks))
        × IsIndex j'.current_task (length j'.tasks)
        × (length j'.tasks + (if ltb k (length j.tasks) then 1 else 0) ≡ length j.tasks)
  unfolding remove_task
  remove_task_lem j k index = elim (Bool-cases (ltb k (length j.tasks))) [
    | inl there ↦
        let shorter = length-remove_at j.tasks k (ground arith) in
        simp there (refl, (ground arith, ground arith), shorter)
    | inr absent ↦ simp absent (refl, index, omega arith)
  ]

  -- Removing a thread takes it out of the list of the task, or is refused with the task as it was
  -- where there is no such thread; the current thread is an index of the list afterwards, if it was
  -- before.
  pub remove_thread_lem :
      (t : Task Thread) (k : ℕ)
      → IsIndex t.current_thread (length t.threads)
      → let (ok, t') = remove_thread t k in
        (ok ≡ ltb k (length t.threads))
        × IsIndex t'.current_thread (length t'.threads)
        × (length t'.threads + (if ltb k (length t.threads) then 1 else 0) ≡ length t.threads)
  unfolding remove_thread
  remove_thread_lem t k index = elim (Bool-cases (ltb k (length t.threads))) [
    | inl there ↦
        let shorter = length-remove_at t.threads k (ground arith) in
        simp there (refl, (ground arith, ground arith), shorter)
    | inr absent ↦ simp absent (refl, index, omega arith)
  ]

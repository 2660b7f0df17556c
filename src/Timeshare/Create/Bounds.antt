-- ===== src/Timeshare/Create/Bounds.antt =====
-- The indices of the scheduler over any sequence of its operations.
use kinnow_os.Prelude.{ℕ, ◌≡◌, Bool, some, List, [], length, get_or, set}
use kinnow_os.Timeshare.{Task, Job, Table, no_task, no_job, search, remove_task, remove_thread}
use kinnow_os.Timeshare.Removal.{IsIndex}
use kinnow_os.Timeshare.Create.{create_job, create_task, create_thread, wake}

-- A property of all elements of a list and of the default.
module _ {A : Type 0} (d : A) (P : A → Type 0) where
  abbrev pub Everywhere : List A → Type 0
  Everywhere xs = (i : ℕ) → P (get_or xs i d)

module _ {Thread : Type 0} where
  abbrev pub TaskInBounds : Task Thread → Type 0
  TaskInBounds t = IsIndex t.current_thread (length t.threads)

  abbrev pub JobInBounds : Job Thread → Type 0
  JobInBounds j = IsIndex j.current_task (length j.tasks) × Everywhere no_task TaskInBounds j.tasks

  -- Every index that the scheduler keeps is in its list, or 0 where the list is empty.
  abbrev pub InBounds : Table Thread → Type 0
  InBounds s = IsIndex s.current_job (length s.jobs) × Everywhere no_job JobInBounds s.jobs

  -- A job of a table, or a task of a job, is replaced.
  abbrev pub put_job : Table Thread → ℕ → Job Thread → Table Thread
  put_job s i j = record s { jobs = set s.jobs i j }

  abbrev pub put_task : Job Thread → ℕ → Task Thread → Job Thread
  put_task j k t = record j { tasks = set j.tasks k t }

  abbrev pub job_at : Table Thread → ℕ → Job Thread
  job_at s i = get_or s.jobs i no_job

  abbrev pub task_at : Job Thread → ℕ → Task Thread
  task_at j k = get_or j.tasks k no_task

  -- One call of the scheduler's operations.
  pub data Call : Table Thread → Table Thread → Type 0 where
    job_created :
        (s : Table Thread) (flags : ℕ) (given : Bool) → Call s (create_job flags given s).1
    job_woken : (s : Table Thread) (i : ℕ) → Call s (put_job s i (wake (job_at s i)))
    task_created : (s : Table Thread) (i : ℕ) → Call s (put_job s i (create_task (job_at s i)).1)
    thread_created :
        (s : Table Thread) (i k stack_size : ℕ) (given : Bool) (thread : Thread)
        → Call s (
            put_job s i (
              put_task
                (job_at s i)
                k
                (create_thread stack_size given thread (task_at (job_at s i) k)).1))
    task_removed :
        (s : Table Thread) (i k : ℕ) → Call s (put_job s i (remove_task (job_at s i) k).1)
    thread_removed :
        (s : Table Thread) (i k n : ℕ)
        → Call s
            (put_job s i (put_task (job_at s i) k (remove_thread (task_at (job_at s i) k) n).1))
    scheduled : (fuel : ℕ) (s s' : Table Thread) → search fuel s ≡ some s' → Call s s'

  -- A state of the scheduler after any number of calls, from no job on.
  pub data Reachable : Table Thread → Type 0 where
    initial : Reachable (record { jobs = []; current_job = 0 })
    called : (s s' : Table Thread) → Reachable s → Call s s' → Reachable s'

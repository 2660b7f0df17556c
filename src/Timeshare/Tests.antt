-- ===== src/Timeshare/Tests.antt =====
-- Instances of the theorems about the scheduler at concrete inputs.
use kinnow_os.Prelude.{ℕ, ◌≤◌, ◌≡◌, refl, true, false, some, [], ◌∷◌, arith}
use kinnow_os.Timeshare.{Task, Job, Table, current, next, turn, remove_thread}
use kinnow_os.Timeshare.Create.{create_job, create_task, create_thread, wake}
use kinnow_os.Timeshare.Create.Bounds.{put_job, put_task, job_at, task_at}
use kinnow_os.Timeshare.Next.{IsPlace, Steps, next_lem}

-- A thread is a number.
abbrev pair_task : Task ℕ
pair_task = record { threads = 7 ∷ 8 ∷ []; current_thread = 1 }

abbrev busy : Job ℕ
busy = record { sleeping = false; tasks = pair_task ∷ []; current_task = 0 }

abbrev idle : Job ℕ
idle = record { sleeping = true; tasks = []; current_task = 0 }

abbrev mixed : Table ℕ
mixed = record { jobs = idle ∷ busy ∷ idle ∷ []; current_job = 1 }

next_lem_example :
    (s' : Table ℕ) × (e : ℕ) × (next 3 mixed ≡ some (current mixed, current s', s'))
    × IsPlace s'
    × Steps 3 1 e s'.current_job
    × ((d : ℕ) → Steps 3 1 d 1 → e ≤ d)
unfolding turn
next_lem_example = next_lem mixed 1 (omega arith) (omega arith) refl

abbrev start : Table ℕ
start = record { jobs = []; current_job = 0 }

abbrev one_job : Table ℕ
one_job = (create_job 0 true start).1

abbrev one_task : Table ℕ
one_task = put_job one_job 0 (create_task (job_at one_job 0)).1

abbrev add_thread : Table ℕ → ℕ → Table ℕ
add_thread s x =
    put_job s 0 (put_task (job_at s 0) 0 (create_thread 8192 true x (task_at (job_at s 0) 0)).1)

abbrev two_threads : Table ℕ
two_threads = add_thread (add_thread one_task 7) 8

abbrev awake : Table ℕ
awake = put_job two_threads 0 (wake (job_at two_threads 0))

-- The job is woken, its second thread is given, and then removed.
abbrev given : Table ℕ
given = record {
  jobs =
      record {
        sleeping = false;
        tasks = record { threads = 7 ∷ 8 ∷ []; current_thread = 1 } ∷ [];
        current_task = 0;
      }
      ∷ [];
  current_job = 0;
}

abbrev thread_gone : Table ℕ
thread_gone =
    put_job given 0 (put_task (job_at given 0) 0 (remove_thread (task_at (job_at given 0) 0) 1).1)

-- ===== src/Timeshare/Create.antt =====
-- kernel/timeshr.cxx: job::create, task::create and thread::create, where the lists are given the
-- storage to grow; Storage/DynamicList says what a list does where it is refused. The result says
-- whether the code returns the new object: it stays in its list also where it returns `nullptr`.
pub mod Bounds
use Prim.Native.Nat.{bit_and}
use kinnow_os.Prelude.{ℕ, Bool, true, false, not, ◌&&◌, ◌||◌, List, [], ◌∷◌, ◌++◌, ◌==◌}
use kinnow_os.Timeshare.{Task, Job, Table, no_task, no_job}

-- `job::VIRTUAL`
abbrev pub virtual : ℕ
virtual = 0x01

module _ {Thread : Type 0} where
  -- A job sleeps at first; `given` says whether there is an address space to be had.
  unfoldable pub create_job : ℕ → Bool → Table Thread → Bool × Table Thread
  create_job flags given s =
      (bit_and flags virtual == 0 || given, record s { jobs = s.jobs ++ (no_job ∷ []) })

  -- A job that is set up is woken: by `timeshare::init` for its own job, and by the code that starts
  -- a user's.
  unfoldable pub wake : Job Thread → Job Thread
  wake j = record j { sleeping = false }

  unfoldable pub create_task : Job Thread → Bool × Job Thread
  create_task j = (true, record j { tasks = j.tasks ++ (no_task ∷ []) })

  -- A thread of the caller's; `given` says whether there is storage for a stack of `stack_size`
  -- bytes.
  unfoldable pub create_thread : ℕ → Bool → Thread → Task Thread → Bool × Task Thread
  create_thread stack_size given thread t =
      (stack_size == 0 || given, record t { threads = t.threads ++ (thread ∷ []) })

-- ===== src/Timeshare.antt =====
-- kernel/timeshr.cxx and kernel/timeshr.hxx: the lists of jobs, tasks and threads of the scheduler
-- and the choice of the next thread. A reference to an element of a list is its index there. A
-- thread is any type: what a thread keeps is not looked at by the scheduler.
pub mod Next
pub mod Removal
pub mod Create
pub mod Tests
use kinnow_os.Prelude.{
  ℕ, zero, suc, ◌+◌, ◌-◌, Bool, true, false, ◌||◌, Option, none, some, List, [], ◌∷◌, ltb, leb,
  ◌==◌, if◌then◌else◌, length, get_or, set,
}
use kinnow_os.Storage.DynamicList.Contents.{remove_at}

pub record Task (Thread : Type 0) : Type 0 where
  pub threads : List Thread
  pub current_thread : ℕ

pub record Job (Thread : Type 0) : Type 0 where
  pub sleeping : Bool
  pub tasks : List (Task Thread)
  pub current_task : ℕ

pub record Table (Thread : Type 0) : Type 0 where
  pub jobs : List (Job Thread)
  pub current_job : ℕ

-- The index behind `i`, and 0 behind the last one.
abbrev pub step : ℕ → ℕ → ℕ
step i size = if leb size (i + 1) then 0 else i + 1

module _ {Thread : Type 0} where
  abbrev pub no_task : Task Thread
  no_task = record { threads = []; current_thread = 0 }

  abbrev pub no_job : Job Thread
  no_job = record { sleeping = true; tasks = []; current_task = 0 }

  -- The turn of one job: the job afterwards, and whether it gave a thread. In the inner loop the
  -- first thread that is looked at is taken.
  pub turn : Job Thread → Bool × Job Thread
  turn j =
      let i = step j.current_task (length j.tasks) in
      let t = get_or j.tasks i no_task in
      let j' = record j { current_task = i } in
      let t' = record t { current_thread = step t.current_thread (length t.threads) } in
      if j.sleeping
      then (false, j)
      else if length j.tasks == 0
      then (false, j)
      else if length t.threads == 0
      then (false, j')
      else (true, record j' { tasks = set j.tasks i t' })

  -- The outer loop of `next`, on fuel.
  pub search : ℕ → Table Thread → Option (Table Thread)
  search zero s = none
  search (suc fuel) s =
      let c = step s.current_job (length s.jobs) in
      let (found, j) = turn (get_or s.jobs c no_job) in
      let s' : Table Thread = record { jobs = set s.jobs c j; current_job = c } in
      let rest = search fuel s' in if found then some s' else rest

  -- The places that `next` returns: a job, a task of it and a thread of that.
  abbrev pub current : Table Thread → ℕ × ℕ × ℕ
  current s =
      let j = get_or s.jobs s.current_job no_job in
      let t = get_or j.tasks j.current_task no_task in
      (s.current_job, j.current_task, t.current_thread)

  -- The old thread, the new one and the table afterwards.
  pub next : ℕ → Table Thread → Option ((ℕ × ℕ × ℕ) × (ℕ × ℕ × ℕ) × Table Thread)
  next fuel s = elim (search fuel s) [ none ↦ none | some s' ↦ some (current s, current s', s') ]

  -- `job::remove` and `task::remove`; `false` for `error::RESOURCE_EXPECTED`.
  pub remove_task : Job Thread → ℕ → Bool × Job Thread
  remove_task j k =
      let tasks = remove_at j.tasks k in
      let c = if leb (length tasks) j.current_task then 0 else j.current_task in
      if ltb k (length j.tasks)
      then (true, record j { tasks = tasks; current_task = c })
      else (false, j)

  pub remove_thread : Task Thread → ℕ → Bool × Task Thread
  remove_thread t k =
      let threads = remove_at t.threads k in
      let c = if leb (length threads) t.current_thread then 0 else t.current_thread in
      if ltb k (length t.threads)
      then (true, record { threads = threads; current_thread = c })
      else (false, t)

-- ===== src/Timeshare/Next.antt =====
-- The scheduler finds a thread.
use kinnow_os.Prelude.{
  ℕ, zero, suc, ◌+◌, ◌-◌, ◌≤◌, ◌<◌, ◌≡◌, ◌≢◌, refl, ◌∙◌, ◌⊎◌, inl, inr, true, false, none, some,
  List, [], ◌∷◌, arith, ltb, ◌==◌, if◌then◌else◌, Bool-cases, length, get_or, set, length-set,
  get_or-set_self, get_or-set_ne,
}
use kinnow_os.Timeshare.{Job, Table, step, no_task, no_job, turn, search, current, next}

-- From job `i` it is `d` steps to job `c`, in a circle of `n` jobs.
abbrev pub Steps : ℕ → ℕ → ℕ → ℕ → Type 0
Steps n i d c = (0 < d) × ((i + d ≡ c) ⊎ (i + d ≡ c + n))

Steps-step :
    (n i d c : ℕ) → i < n → c < n → Steps n i d c → step i n ≢ c → Steps n (step i n) (d - 1) c
Steps-step n i d c lt lt' steps ne = ground arith

Steps-suc :
    (n i d c e c' : ℕ)
    → i < n
    → c < n
    → Steps n i d c
    → e ≤ d - 1
    → Steps n (step i n) e c'
    → Steps n i (e + 1) c'
Steps-suc n i d c e c' lt lt' steps le steps' = (omega arith, ground arith)

module _ {Thread : Type 0} where
  -- The job gives a thread at its next turn.
  abbrev pub IsRunnable : Job Thread → Type 0
  IsRunnable j = (turn j).0 ≡ true

  -- The table names a job that does not sleep, a task in it and a thread in that.
  pub record IsPlace (s : Table Thread) : Type 0 where
    pub job_bound : s.current_job < length s.jobs
    pub awake : (get_or s.jobs s.current_job no_job).sleeping ≡ false
    pub task_bound : let j = get_or s.jobs s.current_job no_job in j.current_task < length j.tasks
    pub thread_bound :
        let j = get_or s.jobs s.current_job no_job in
        let t = get_or j.tasks j.current_task no_task in t.current_thread < length t.threads

  turn_lem :
      (j : Job Thread)
      → IsRunnable j
      → let j' = (turn j).1 in
        let t = get_or j'.tasks j'.current_task no_task in
        (j'.sleeping ≡ false)
        × (j'.current_task < length j'.tasks)
        × (t.current_thread < length t.threads)
  unfolding turn
  turn_lem j run =
      let i = step j.current_task (length j.tasks) in
      let t = get_or j.tasks i no_task in
      let t' = record t { current_thread = step t.current_thread (length t.threads) } in
      elim (Bool-cases j.sleeping) [
        | inl asleep ↦ absurd (ground (arith, asleep))
        | inr awake ↦ elim (Bool-cases (length j.tasks == 0)) [
          | inl none_left ↦ absurd (ground (arith, awake, none_left))
          | inr tasks ↦ elim (Bool-cases (length t.threads == 0)) [
            | inl idle ↦ absurd (ground (arith, awake, tasks, idle))
            | inr threads ↦
                let bound : i < length j.tasks = ground arith in
                simp
                  (
                    awake,
                    tasks,
                    threads,
                    get_or-set_self j.tasks i t' no_task bound,
                    length-set j.tasks i t',
                  )
                  (refl, bound, ground arith)
          ]
        ]
      ]

  -- With a job that gives a thread `d` steps ahead, the search stops after at most `d` turns.
  search_lem :
      (fuel d : ℕ) (s : Table Thread) (c : ℕ)
      → s.current_job < length s.jobs
      → c < length s.jobs
      → d ≤ fuel
      → Steps (length s.jobs) s.current_job d c
      → IsRunnable (get_or s.jobs c no_job)
      → (s' : Table Thread) × (e : ℕ) × (search fuel s ≡ some s')
        × IsPlace s'
        × (e ≤ d)
        × Steps (length s.jobs) s.current_job e s'.current_job
        × (length s'.jobs ≡ length s.jobs)
  unfolding search
  search_lem zero d s c lt lt' le steps run = absurd (omega arith)
  search_lem (suc fuel) d s c lt lt' le steps run =
      let a = step s.current_job (length s.jobs) in
      let a_bound : a < length s.jobs = ground arith in
      let j = get_or s.jobs a no_job in
      let j' = (turn j).1 in
      let s1 : Table Thread = record { jobs = set s.jobs a j'; current_job = a } in
      let n_eq = length-set s.jobs a j' in
      let at_a : get_or (set s.jobs a j') a no_job ≡ j' =
        get_or-set_self s.jobs a j' no_job a_bound in
      elim (Bool-cases (turn j).0) [
        | inl found ↦
            let place = turn_lem j found in
            (
              s1,
              1,
              rw found refl,
              record {
                job_bound = rw n_eq a_bound;
                awake = rw at_a place.0;
                task_bound = rw at_a place.1;
                thread_bound = rw at_a place.2;
              },
              omega arith,
              (omega arith, ground arith),
              n_eq,
            )
        | inr not_found ↦
            let ne : a ≢ c = λ e. cc in
            let kept : get_or (set s.jobs a j') c no_job ≡ get_or s.jobs c no_job =
              get_or-set_ne s.jobs a c j' no_job ne in
            let (s', e, r, place, le', steps', same) =
              search_lem fuel (d - 1) s1 c (rw n_eq a_bound) (rw n_eq lt') (omega arith)
                (rw n_eq (Steps-step (length s.jobs) s.current_job d c lt lt' steps ne))
                (rw kept run) in
            (
              s',
              e + 1,
              rw not_found r,
              place,
              omega arith,
              Steps-suc (length s.jobs) s.current_job d c e s'.current_job lt lt' steps le'
                  (rw n_eq at steps'),
              same ∙ n_eq,
            )
      ]

  -- If some job gives a thread at its next turn, `next` returns within one turn of each job: a job
  -- that does not sleep, a task in it and a thread in that; and it does not pass over the job.
  pub next_lem :
      (s : Table Thread) (c : ℕ)
      → s.current_job < length s.jobs
      → c < length s.jobs
      → IsRunnable (get_or s.jobs c no_job)
      → (s' : Table Thread) × (e : ℕ) × (next (length s.jobs) s ≡ some (current s, current s', s'))
        × IsPlace s'
        × Steps (length s.jobs) s.current_job e s'.current_job
        × ((d : ℕ) → Steps (length s.jobs) s.current_job d c → e ≤ d)
  unfolding next
  next_lem s c lt lt' run =
      let n = length s.jobs in
      let d = if ltb s.current_job c then c - s.current_job else c + n - s.current_job in
      let steps : Steps n s.current_job d c = (ground arith, ground arith) in
      let (s', e, r, place, le, steps', same) =
        search_lem n d s c lt lt' (ground arith) steps run in
      (s', e, rw (next, r) refl, place, steps', λ d' other. ground (arith, le))

  set-get_or :
      (j : Job Thread) (jobs : List (Job Thread)) (c i : ℕ)
      → j ≡ get_or jobs c no_job
      → get_or (set jobs c j) i no_job ≡ get_or jobs i no_job
  set-get_or j [] c i e = refl
  set-get_or j (x ∷ xs) zero zero e = e
  set-get_or j (x ∷ xs) zero (suc i) e = refl
  set-get_or j (x ∷ xs) (suc c) zero e = refl
  set-get_or j (x ∷ xs) (suc c) (suc i) e = set-get_or j xs c i e

  search-asleep :
      (fuel : ℕ) (s : Table Thread)
      → ((i : ℕ) → (get_or s.jobs i no_job).sleeping ≡ true)
      → search fuel s ≡ none
  unfolding search turn
  search-asleep zero s asleep = refl
  search-asleep (suc fuel) s asleep =
      let c = step s.current_job (length s.jobs) in
      let j = get_or s.jobs c no_job in
      let s1 : Table Thread = record { jobs = set s.jobs c j; current_job = c } in
      let rest = search-asleep fuel s1 (λ i. rw (set-get_or j s.jobs c i refl) (asleep i)) in
      simp (asleep c) rest

  -- While every job sleeps, `next` does not return at any fuel.
  pub next-asleep :
      (fuel : ℕ) (s : Table Thread)
      → ((i : ℕ) → (get_or s.jobs i no_job).sleeping ≡ true)
      → next fuel s ≡ none
  unfolding next
  next-asleep fuel s asleep = rw (next, search-asleep fuel s asleep) refl

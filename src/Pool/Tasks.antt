-- ===== src/Pool/Tasks.antt =====
-- No task is lost or run twice, and the pool stays within its bounds.
use goctopus.Pool.{
  queue_cap, start_pool, schedule, after, run_task, Task, Pool, Works, Runs, returned, threw,
  receives, finishes, finishes_alone, exits, begins, schedules, works, interferes, stops,
}
use goctopus.Prelude.{
  ltb, Bool-cases, length, length-append, ℕ, suc, ◌+◌, ◌≤◌, ◌≡◌, refl, ap, ◌∙◌, inl, inr, ite,
  false, List, [], ◌∷◌, ◌++◌, arith, ℕ_discrete,
}

module _ {X : Type 0} where
  -- How often a list has a task with a name.
  abbrev pub count : ℕ → List (Task X) → ℕ
  count n [] = 0
  count n (t ∷ tasks) = ite (ℕ_discrete t.name n) 1 0 + count n tasks

  pub count-append : (n : ℕ) (xs ys : List (Task X)) → count n (xs ++ ys) ≡ count n xs + count n ys
  count-append n [] ys = omega arith
  count-append n (x ∷ xs) ys = omega (arith, count-append n xs ys)

  -- The tasks that the pool holds, and that it ran.
  abbrev pub held : ℕ → Pool X → ℕ
  held n pool = count n pool.queue + count n pool.busy + count n pool.spawned + count n pool.done

  held-run_task :
      (n : ℕ) (task : Task X) (pool : Pool X)
      → held n (run_task task pool) ≡ held n pool + count n (task ∷ [])
  unfolding run_task after
  held-run_task n task pool =
      elim (task.body pool.state)
        as (λ ran. held n (after task ran pool) ≡ held n pool + count n (task ∷ [])) [
          | returned x ↦ omega (arith, count-append n pool.done (task ∷ []))
          | threw x ↦ omega (arith, count-append n pool.done (task ∷ []))
        ]

  pub record IsBounded (workers : ℕ) (pool : Pool X) : Type 0 where
    pub queued : length pool.queue ≤ queue_cap workers
    pub shared : pool.idle + length pool.busy + pool.exited ≡ workers
    pub exiting : pool.stopped ≡ false → pool.exited ≡ 0

  run_task-IsBounded :
      (workers : ℕ) (task : Task X) (pool : Pool X)
      → IsBounded workers pool
      → IsBounded workers (run_task task pool)
  unfolding run_task after
  run_task-IsBounded workers task pool b =
      elim (task.body pool.state) as (λ ran. IsBounded workers (after task ran pool)) [
        | returned x ↦ record { queued = b.queued; shared = b.shared; exiting = b.exiting }
        | threw x ↦ record { queued = b.queued; shared = b.shared; exiting = b.exiting }
      ]

  length-middle :
      (xs ys : List (Task X)) (t : Task X) → length (xs ++ t ∷ ys) ≡ suc (length (xs ++ ys))
  length-middle [] ys t = refl
  length-middle (x ∷ xs) ys t = ap suc (length-middle xs ys t)

  pub count-middle :
      (n : ℕ) (xs ys : List (Task X)) (t : Task X)
      → count n (xs ++ t ∷ ys) ≡ count n (xs ++ ys) + count n (t ∷ [])
  count-middle n [] ys t = omega arith
  count-middle n (x ∷ xs) ys t = omega (arith, count-middle n xs ys t)

  Works-held : (n : ℕ) {pool pool' : Pool X} → Works pool pool' → held n pool' ≡ held n pool
  Works-held n {pool} (receives m task queue e q) = omega (arith, ap (count n) q)
  Works-held n {pool} (finishes task before behind e) =
      held-run_task n task _ ∙ omega (arith, ap (count n) e, count-middle n before behind task)
  Works-held n {pool} (finishes_alone task before behind e) =
      held-run_task n task _ ∙ omega (arith, ap (count n) e, count-middle n before behind task)
  Works-held n {pool} (exits m e q h) = refl

  schedule-held :
      (n cap : ℕ) (task : Task X) (pool : Pool X)
      → held n (schedule cap task pool) ≡ held n pool + count n (task ∷ [])
  unfolding schedule
  schedule-held n cap task pool =
      ground (arith, count-append n pool.queue (task ∷ []), count-append n pool.spawned (task ∷ []))

  Works-IsBounded :
      (workers : ℕ) {pool pool' : Pool X}
      → Works pool pool'
      → IsBounded workers pool
      → IsBounded workers pool'
  Works-IsBounded workers {pool} (receives m task queue e q) b = record {
    queued = omega (arith, b.queued, ap length q);
    shared = omega (arith, b.shared, e);
    exiting = b.exiting;
  }
  Works-IsBounded workers {pool} (finishes task before behind e) b =
      run_task-IsBounded workers task _ (record {
        queued = b.queued;
        shared = omega (arith, b.shared, ap length e, length-middle before behind task);
        exiting = b.exiting;
      })
  Works-IsBounded workers {pool} (finishes_alone task before behind e) b =
      run_task-IsBounded workers task _
        (record { queued = b.queued; shared = b.shared; exiting = b.exiting })
  Works-IsBounded workers {pool} (exits m e q h) b = record {
    queued = b.queued;
    shared = omega (arith, b.shared, e);
    exiting = λ s. ground arith;
  }

  schedule-IsBounded :
      (workers : ℕ) (task : Task X) (pool : Pool X)
      → IsBounded workers pool
      → IsBounded workers (schedule (queue_cap workers) task pool)
  unfolding schedule
  schedule-IsBounded workers task pool b =
      elim (Bool-cases (ltb (length pool.queue) (queue_cap workers))) [
        | inl e ↦
            rw (e, schedule)
              (record {
                queued = ground (arith, length-append pool.queue (task ∷ []));
                shared = b.shared;
                exiting = b.exiting;
              })
        | inr e ↦
            rw (e, schedule) (record { queued = b.queued; shared = b.shared; exiting = b.exiting })
      ]

  -- Whatever is scheduled, however the workers take turns, and whether tasks panic: each task that was
  -- scheduled waits, runs or has run, as often as it was scheduled; no more than the capacity wait in the
  -- queue; and the workers are those that were started, none of which exits before the instance stops.
  pub Runs_lem :
      {Other : X → X → Type 0} {workers : ℕ} {x : X} {tasks : List (Task X)} {pool : Pool X}
      → Runs Other workers x tasks pool
      → ((n : ℕ) → held n pool ≡ count n tasks) × IsBounded workers pool
  unfolding start_pool
  Runs_lem {workers = workers} begins =
      ((λ n. refl), record { queued = omega arith; shared = omega arith; exiting = λ h. refl })
  Runs_lem {workers = workers} (schedules {pool = pool} task r) = (
    (λ n. schedule-held n (queue_cap workers) task pool ∙ omega (arith, (Runs_lem r).0 n)),
    schedule-IsBounded workers task pool (Runs_lem r).1,
  )
  Runs_lem {workers = workers} (works r w) =
      ((λ n. Works-held n w ∙ (Runs_lem r).0 n), Works-IsBounded workers w (Runs_lem r).1)
  Runs_lem {workers = workers} (interferes x' r o) =
      let b = (Runs_lem r).1 in
      ((Runs_lem r).0, record { queued = b.queued; shared = b.shared; exiting = b.exiting })
  Runs_lem {workers = workers} (stops {pool = pool} r) =
      let b = (Runs_lem r).1 in
      (
        (Runs_lem r).0,
        record { queued = b.queued; shared = b.shared; exiting = λ h. absurd (ground arith) },
      )

-- ===== src/Pool/Draining.antt =====
-- The workers run all that was scheduled.
use goctopus.Pool.Tasks.{count, Runs_lem}
use goctopus.Pool.{
  after, run_task, Task, Pool, Works, Runs, returned, threw, receives, finishes, finishes_alone,
  works,
}
use goctopus.Prelude.{
  length, ℕ, suc, ◌+◌, ◌-◌, ◌<◌, ◌≡◌, refl, ap, ◌∙◌, false, List, [], ◌∷◌, arith,
}

module _ {X : Type 0} where
  -- The ends of a task change nothing else.
  run_task-fields :
      (task : Task X) (pool : Pool X)
      → ((run_task task pool).idle ≡ pool.idle)
        × ((run_task task pool).busy ≡ pool.busy)
        × ((run_task task pool).queue ≡ pool.queue)
        × ((run_task task pool).spawned ≡ pool.spawned)
        × ((run_task task pool).stopped ≡ pool.stopped)
  unfolding run_task after
  run_task-fields task pool =
      elim (task.body pool.state)
        as (λ ran.
          ((after task ran pool).idle ≡ pool.idle)
          × ((after task ran pool).busy ≡ pool.busy)
          × ((after task ran pool).queue ≡ pool.queue)
          × ((after task ran pool).spawned ≡ pool.spawned)
          × ((after task ran pool).stopped ≡ pool.stopped)) [
            | returned x ↦ (refl, refl, refl, refl, refl)
            | threw x ↦ (refl, refl, refl, refl, refl)
          ]

  -- Steps of the workers, one after the other.
  pub data Working (pool : Pool X) : Pool X → Type 0 where
    rests : Working pool pool
    continues :
        {pool' pool'' : Pool X} → Working pool pool' → Works pool' pool'' → Working pool pool''

  Working-trans : {a b c : Pool X} → Working a b → Working b c → Working a c
  Working-trans h rests = h
  Working-trans h (continues k w) = continues (Working-trans h k) w

  Working-Runs :
      {Other : X → X → Type 0} {workers : ℕ} {x : X} {tasks : List (Task X)} {a b : Pool X}
      → Working a b
      → Runs Other workers x tasks a
      → Runs Other workers x tasks b
  Working-Runs rests r = r
  Working-Runs (continues h w) r = works (Working-Runs h r) w

  finish_spawned :
      (s : List (Task X)) (pool : Pool X)
      → pool.spawned ≡ s
      → (pool' : Pool X) × Working pool pool'
        × (pool'.spawned ≡ [])
        × (pool'.idle ≡ pool.idle)
        × (pool'.busy ≡ pool.busy)
        × (pool'.queue ≡ pool.queue)
  finish_spawned [] pool e = (pool, rests, e, refl, refl, refl)
  finish_spawned (t ∷ s) pool e =
      let left = record pool { spawned = s } in
      let (idle, busy, queue, spawned, stopped) = run_task-fields t left in
      let (pool', h, none_left, i, b, q) = finish_spawned s (run_task t left) spawned in
      (
        pool',
        Working-trans (continues rests (finishes_alone t [] s e)) h,
        none_left,
        i ∙ idle,
        b ∙ busy,
        q ∙ queue,
      )

  finish_busy :
      (s : List (Task X)) (pool : Pool X)
      → pool.busy ≡ s
      → (pool' : Pool X) × Working pool pool'
        × (pool'.busy ≡ [])
        × (pool'.idle ≡ pool.idle + length s)
        × (pool'.spawned ≡ pool.spawned)
        × (pool'.queue ≡ pool.queue)
  finish_busy [] pool e = (pool, rests, e, omega arith, refl, refl)
  finish_busy (t ∷ s) pool e =
      let left = record pool { idle = suc pool.idle; busy = s } in
      let (idle, busy, queue, spawned, stopped) = run_task-fields t left in
      let (pool', h, none_left, i, b, q) = finish_busy s (run_task t left) busy in
      (
        pool',
        Working-trans (continues rests (finishes t [] s e)) h,
        none_left,
        omega (arith, i, idle),
        b ∙ spawned,
        q ∙ queue,
      )

  empty_queue :
      (s : List (Task X)) (n : ℕ) (pool : Pool X)
      → pool.queue ≡ s
      → pool.idle ≡ suc n
      → pool.busy ≡ []
      → pool.spawned ≡ []
      → (pool' : Pool X) × Working pool pool'
        × (pool'.queue ≡ [])
        × (pool'.busy ≡ [])
        × (pool'.spawned ≡ [])
  empty_queue [] n pool q i b s' = (pool, rests, q, b, s')
  empty_queue (t ∷ s) n pool q i b s' =
      let taken = record pool { idle = n; busy = t ∷ pool.busy; queue = s } in
      let left = record taken { idle = suc n; busy = pool.busy } in
      let (idle, busy, queue, spawned, stopped) = run_task-fields t left in
      let first : Working pool (run_task t left) =
        continues (continues rests (receives n t s i q)) (finishes t [] pool.busy refl) in
      let (pool', h, q0, b0, s0) =
        empty_queue s n (run_task t left) queue idle (busy ∙ b) (spawned ∙ s') in
      (pool', Working-trans first h, q0, b0, s0)

  -- With a positive number of workers, and while the instance is not stopped, the pool can always
  -- run to the end: from every state that it reaches the workers have steps to a state where
  -- nothing waits and nothing runs, in which each task has run as often as it was scheduled.
  pub drains :
      {Other : X → X → Type 0} {workers : ℕ} {x : X} {tasks : List (Task X)} {pool : Pool X}
      → Runs Other workers x tasks pool
      → 0 < workers
      → pool.stopped ≡ false
      → (pool' : Pool X) × Working pool pool'
        × (pool'.queue ≡ [])
        × (pool'.busy ≡ [])
        × (pool'.spawned ≡ [])
        × ((n : ℕ) → count n pool'.done ≡ count n tasks)
  drains {workers = workers} {pool = pool} r some_workers running =
      let b = (Runs_lem r).1 in
      let (one, h1, s1, i1, b1, q1) = finish_spawned pool.spawned pool refl in
      let (two, h2, b2, i2, s2, q2) = finish_busy one.busy one refl in
      let alive : two.idle ≡ suc (workers - 1) =
        omega (arith, b.shared, b.exiting running, i1, i2, ap length b1) in
      let (last, h3, q3, b3, s3) =
        empty_queue two.queue (workers - 1) two refl alive b2 (s2 ∙ s1) in
      let h = Working-trans h1 (Working-trans h2 h3) in
      (
        last,
        h,
        q3,
        b3,
        s3,
        λ n. omega (
          arith,
          (Runs_lem (Working-Runs h r)).0 n,
          ap (count n) q3,
          ap (count n) b3,
          ap (count n) s3,
        ),
      )

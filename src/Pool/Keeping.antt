-- ===== src/Pool/Keeping.antt =====
-- What the tasks and the other goroutines keep, the pool keeps.
use goctopus.Pool.{
  queue_cap, start_pool, schedule, after, run_task, Ran, Task, Pool, Works, Runs, returned, threw,
  receives, finishes, finishes_alone, exits, begins, schedules, works, interferes, stops,
}
use goctopus.Prelude.{ltb, Bool-cases, length, ℕ, subst, inl, inr, List, [], ◌∷◌, ◌++◌}

abbrev pub left : {X : Type 0} → Ran X → X
left (returned x) = x
left (threw x) = x

module _ {X : Type 0} (P : X → Type 0) where
  -- Each task keeps to `P`, also when it panics.
  abbrev pub AllKeep : List (Task X) → Type 0
  AllKeep [] = Unit
  AllKeep (task ∷ tasks) = ((x : X) → P x → P (left (task.body x))) × AllKeep tasks

  AllKeep-append : (xs ys : List (Task X)) → AllKeep xs → AllKeep ys → AllKeep (xs ++ ys)
  AllKeep-append [] ys h k = k
  AllKeep-append (x ∷ xs) ys h k = (h.0, AllKeep-append xs ys h.1 k)

  AllKeep-middle :
      (xs ys : List (Task X)) (t : Task X)
      → AllKeep (xs ++ t ∷ ys)
      → ((x : X) → P x → P (left (t.body x))) × AllKeep (xs ++ ys)
  AllKeep-middle [] ys t h = h
  AllKeep-middle (x ∷ xs) ys t h =
      let (one, rest) = AllKeep-middle xs ys t h.1 in (one, (h.0, rest))

  record IsKept (pool : Pool X) : Type 0 where
    state : P pool.state
    busy : AllKeep pool.busy
    queue : AllKeep pool.queue
    spawned : AllKeep pool.spawned

  run_task-IsKept :
      (task : Task X) (pool : Pool X)
      → ((x : X) → P x → P (left (task.body x)))
      → IsKept pool
      → IsKept (run_task task pool)
  unfolding run_task after
  run_task-IsKept task pool h v =
      elim (task.body pool.state) as (λ ran. P (left ran) → IsKept (after task ran pool)) [
        | returned x ↦
            λ s. record { state = s; busy = v.busy; queue = v.queue; spawned = v.spawned }
        | threw x ↦ λ s. record { state = s; busy = v.busy; queue = v.queue; spawned = v.spawned }
      ]
        (h pool.state v.state)

  Works-IsKept : {pool pool' : Pool X} → Works pool pool' → IsKept pool → IsKept pool'
  Works-IsKept {pool} (receives m task queue e q) v =
      let tasks : AllKeep (task ∷ queue) = subst AllKeep q v.queue in
      record { state = v.state; busy = (tasks.0, v.busy); queue = tasks.1; spawned = v.spawned }
  Works-IsKept {pool} (finishes task before behind e) v =
      let (one, rest) = AllKeep-middle before behind task (subst AllKeep e v.busy) in
      run_task-IsKept task _ one
        (record { state = v.state; busy = rest; queue = v.queue; spawned = v.spawned })
  Works-IsKept {pool} (finishes_alone task before behind e) v =
      let (one, rest) = AllKeep-middle before behind task (subst AllKeep e v.spawned) in
      run_task-IsKept task _ one
        (record { state = v.state; busy = v.busy; queue = v.queue; spawned = rest })
  Works-IsKept {pool} (exits m e q h) v = record {
    state = v.state;
    busy = v.busy;
    queue = v.queue;
    spawned = v.spawned;
  }

  schedule-IsKept :
      (cap : ℕ) (task : Task X) (pool : Pool X)
      → ((x : X) → P x → P (left (task.body x)))
      → IsKept pool
      → IsKept (schedule cap task pool)
  unfolding schedule
  schedule-IsKept cap task pool h v = elim (Bool-cases (ltb (length pool.queue) cap)) [
    | inl e ↦
        rw (e, schedule)
          (record {
            state = v.state;
            busy = v.busy;
            queue = AllKeep-append pool.queue (task ∷ []) v.queue (h, tt);
            spawned = v.spawned;
          })
    | inr e ↦
        rw (e, schedule)
          (record {
            state = v.state;
            busy = v.busy;
            queue = v.queue;
            spawned = AllKeep-append pool.spawned (task ∷ []) v.spawned (h, tt);
          })
  ]

  module _ {Other : X → X → Type 0} (others : (x x' : X) → Other x x' → P x → P x') where
    Runs-IsKept :
        {workers : ℕ} {x : X} {tasks : List (Task X)} {pool : Pool X}
        → Runs Other workers x tasks pool
        → AllKeep tasks
        → P x
        → IsKept pool
    unfolding start_pool
    Runs-IsKept begins h s = record { state = s; busy = tt; queue = tt; spawned = tt }
    Runs-IsKept {workers = workers} (schedules {pool = pool} task r) h s =
        schedule-IsKept (queue_cap workers) task pool h.0 (Runs-IsKept r h.1 s)
    Runs-IsKept (works r w) h s = Works-IsKept w (Runs-IsKept r h s)
    Runs-IsKept (interferes {pool = pool} x' r o) h s =
        let v = Runs-IsKept r h s in
        record {
          state = others pool.state x' o v.state;
          busy = v.busy;
          queue = v.queue;
          spawned = v.spawned;
        }
    Runs-IsKept (stops r) h s =
        let v = Runs-IsKept r h s in
        record { state = v.state; busy = v.busy; queue = v.queue; spawned = v.spawned }

    pub Runs-state :
        {workers : ℕ} {x : X} {tasks : List (Task X)} {pool : Pool X}
        → Runs Other workers x tasks pool
        → AllKeep tasks
        → P x
        → P pool.state
    Runs-state r h s = (Runs-IsKept r h s).state

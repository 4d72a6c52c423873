-- ===== src/Pool.antt =====
-- src/engine.go: the pool of workers that `Start` makes, and `schedule`, `worker` and `runTask`.
pub mod Tasks
pub mod Draining
pub mod Keeping
use goctopus.Prelude.{
  ltb, leb, if◌then◌else◌, length, ℕ, suc, ◌+◌, ◌*◌, ◌%◌, ◌^◌, ◌≡◌, Bool, true, false, ◌||◌, List,
  [], ◌∷◌, ◌++◌,
}

-- A task returns or panics, and leaves a state.
pub data Ran (X : Type 0) : Type 0 where
  returned : X → Ran X
  threw : X → Ran X

-- A task and its name.
pub record Task (X : Type 0) : Type 0 where
  pub name : ℕ
  pub body : X → Ran X

-- `busy` lists the tasks that the workers run, `spawned` those that run in a goroutine of their own,
-- `done` those that ended; `recovered` counts the panics. `stopped` is that the context is done.
pub record Pool (X : Type 0) : Type 0 where
  pub state : X
  pub idle : ℕ
  pub exited : ℕ
  pub busy : List (Task X)
  pub queue : List (Task X)
  pub spawned : List (Task X)
  pub done : List (Task X)
  pub recovered : ℕ
  pub stopped : Bool

-- `cfg.Workers * 64`, at least 256, on 64-bit integers: what wraps around to a negative number is
-- below 256. Workers is positive here.
unfoldable pub queue_cap : ℕ → ℕ
queue_cap workers =
    let cap = (workers * 64) % 2 ^ 64 in if leb (2 ^ 63) cap || ltb cap 256 then 256 else cap

unfoldable pub start_pool : {X : Type 0} → ℕ → X → Pool X
start_pool workers x = record {
  state = x;
  idle = workers;
  exited = 0;
  busy = [];
  queue = [];
  spawned = [];
  done = [];
  recovered = 0;
  stopped = false;
}

module _ {X : Type 0} where
  -- The send on the channel, or a goroutine of its own where the channel is full.
  unfoldable pub schedule : ℕ → Task X → Pool X → Pool X
  schedule cap task pool =
      if ltb (length pool.queue) cap
      then record pool { queue = pool.queue ++ task ∷ [] }
      else record pool { spawned = pool.spawned ++ task ∷ [] }

  -- The state that the task leaves stays when it panics; the panic ends here.
  unfoldable pub after : Task X → Ran X → Pool X → Pool X
  after task (returned x) pool = record pool { state = x; done = pool.done ++ task ∷ [] }
  after task (threw x) pool = record pool {
    state = x;
    done = pool.done ++ task ∷ [];
    recovered = pool.recovered + 1;
  }

  unfoldable pub run_task : Task X → Pool X → Pool X
  unfolding after
  run_task task pool = after task (task.body pool.state) pool

  -- What a worker does: it receives a task, runs it, and exits only when the context is done and the
  -- queue is empty.
  pub data Works (pool : Pool X) : Pool X → Type 0 where
    receives :
        (n : ℕ) (task : Task X) (queue : List (Task X))
        → pool.idle ≡ suc n
        → pool.queue ≡ task ∷ queue
        → Works pool (record pool { idle = n; busy = task ∷ pool.busy; queue = queue })
    finishes :
        (task : Task X) (before behind : List (Task X))
        → pool.busy ≡ before ++ task ∷ behind
        → Works pool (run_task task (record pool { idle = suc pool.idle; busy = before ++ behind }))
    finishes_alone :
        (task : Task X) (before behind : List (Task X))
        → pool.spawned ≡ before ++ task ∷ behind
        → Works pool (run_task task (record pool { spawned = before ++ behind }))
    exits :
        (n : ℕ)
        → pool.idle ≡ suc n
        → pool.queue ≡ []
        → pool.stopped ≡ true
        → Works pool (record pool { idle = n; exited = suc pool.exited })

  -- The states that a pool reaches from a state of the instance, with the tasks that were scheduled.
  -- `Other` is what goroutines outside the pool do to the state.
  pub data Runs (Other : X → X → Type 0) (workers : ℕ) (x : X)
      : List (Task X) → Pool X → Type 0 where
    begins : Runs Other workers x [] (start_pool workers x)
    schedules :
        {tasks : List (Task X)} {pool : Pool X} (task : Task X)
        → Runs Other workers x tasks pool
        → Runs Other workers x (task ∷ tasks) (schedule (queue_cap workers) task pool)
    works :
        {tasks : List (Task X)} {pool pool' : Pool X}
        → Runs Other workers x tasks pool
        → Works pool pool'
        → Runs Other workers x tasks pool'
    interferes :
        {tasks : List (Task X)} {pool : Pool X} (x' : X)
        → Runs Other workers x tasks pool
        → Other pool.state x'
        → Runs Other workers x tasks (record pool { state = x' })
    stops :
        {tasks : List (Task X)} {pool : Pool X}
        → Runs Other workers x tasks pool
        → Runs Other workers x tasks (record pool { stopped = true })

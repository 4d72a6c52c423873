-- ===== src/Tests/Running.antt =====
-- The theorems on the loops, the start and the stop of an instance, at sample runs.
use goctopus.Auth.{allow}
use goctopus.Prelude.GoMap.{lookup, insert}
use goctopus.Delivery.{send_messages}
use goctopus.Server.Soundness.{IsSound}
use goctopus.Request.{Method, Request}
use goctopus.Connect.{handle_ws, Upgrade}
use goctopus.Message.{ok}
use goctopus.Config.{origin_allowed, Config}
use goctopus.Lifecycle.Starting.{start-IsSound}
use goctopus.Lifecycle.{
  storage_named, authorizer_named, init_dummy, make_limiter, make_history, check_workers,
  get_storage, get_authorizer, start, StorageEngine, AuthorizerEngine, DummyAuthorizer,
  memory_engine, redis_engine, proxy_engine, dummy_engine,
}
use goctopus.Pool.Draining.{drains, Working}
use goctopus.Pool.Tasks.{count, held, Runs_lem, IsBounded}
use goctopus.Pool.{
  queue_cap, start_pool, schedule, Task, Pool, Runs, returned, threw, receives, begins, schedules,
  works,
}
use goctopus.Storage.Memory.Laws.{memory}
use goctopus.Storage.Memory.{MemoryStorage}
use goctopus.Engine.{conns_of, Goctopus}
use goctopus.Server.Loops.{read_loop_ends}
use goctopus.Server.{started, Step, Reach, connects, flushes, starts, steps}
use goctopus.Frames.Reading.{payload_of_iff}
use goctopus.Frames.{deflate_tail, payload_of, read_loop, Stream, Incoming, op_text, op_ping}
use goctopus.Tests.{alice, all_topics, platform, queues, flush, config}
use goctopus.Prelude.{
  if◌then◌else◌, length, replicate, Text, codes, Text-discrete, has, ℕ, ◌+◌, ◌≤◌, ◌<◌, ◌≡◌, refl,
  ◌↔◌, true, false, ◌&&◌, Option, none, some, List, [], ◌∷◌, ◌++◌, arith, ℕ_discrete, text_key,
  nat_key,
}

-- An ACK of the message 7, a ping, and a frame that is too long.
abbrev frame : Incoming
frame = record {
  opcode = op_text;
  body = record { bytes = 7 ∷ []; ends = true };
  compressed = false;
  pong_writes = true;
}

abbrev long_frame : Incoming
long_frame = record frame { body = record { bytes = replicate 200 7; ends = true } }

abbrev frames : List ((Goctopus MemoryStorage → Goctopus MemoryStorage) × Incoming)
frames =
    ((λ g. g), frame) ∷ ((λ g. g), record frame { opcode = op_ping }) ∷ ((λ g. g), long_frame) ∷ []

-- Nothing is compressed: inflating gives the text.
abbrev flate : Text → Stream
flate b = record { bytes = b; ends = true }

abbrev request : Request
request = record {
  method = Method.get;
  path = [];
  query = [];
  headers = [];
  basic_auth = none;
  body = none;
  remote_addr = codes "::1";
}

abbrev upgrade : Upgrade
upgrade = record { now = 20; authorized = some (alice ∷ all_topics ∷ []); handshake = some true }

abbrev begun : Goctopus MemoryStorage
begun = (handle_ws memory platform config request upgrade (started queues none none)).1

begun-Reach : Reach memory platform config begun
begun-Reach = steps (starts queues none none) (connects request upgrade)

read_loop_ends_example :
    Reach memory platform config (read_loop memory platform config flate 0 frames (λ g. g) begun)
    × (((read_loop memory platform config flate 0 frames (λ g. g) begun).clients 0).closed ≡ true)
    × ((k : Text)
        → has 0 (conns_of (read_loop memory platform config flate 0 frames (λ g. g) begun).conns k)
          ≡ false)
read_loop_ends_example =
    read_loop_ends memory platform config flate 0 frames (λ g. g) begun
      ((λ g r. r), ((λ g r. r), ((λ g r. r), tt))) (λ g r. r) begun-Reach

payload_of_iff_example : (payload_of flate 100 true frame ≡ some (7 ∷ [])) ↔ (
    (frame.body.ends ≡ true)
    × (length frame.body.bytes ≤ 100)
    × (if true && frame.compressed
        then ((flate (frame.body.bytes ++ deflate_tail)).ends ≡ true)
          × (length (flate (frame.body.bytes ++ deflate_tail)).bytes ≤ 100)
          × ((flate (frame.body.bytes ++ deflate_tail)).bytes ≡ 7 ∷ [])
        else (frame.body.bytes ≡ 7 ∷ [])))
payload_of_iff_example = payload_of_iff flate 100 true frame (7 ∷ []) (omega arith)

-- A task that adds one, and one that panics.
abbrev adds_one : Task ℕ
adds_one = record { name = 1; body = λ x. returned (x + 1) }

abbrev panics : Task ℕ
panics = record { name = 2; body = λ x. threw x }

-- Two tasks are scheduled on two workers, and one of them is received.
-- Other goroutines do nothing here.
abbrev Nothing : ℕ → ℕ → Type 0
Nothing x y = ⊥

some_run : (pool : Pool ℕ) × Runs Nothing 2 5 (panics ∷ adds_one ∷ []) pool × (pool.stopped ≡ false)
unfolding start_pool schedule queue_cap
some_run = (
  _,
  works (schedules panics (schedules adds_one begins))
      (receives 1 adds_one (panics ∷ []) refl refl),
  refl,
)

Runs_lem_example :
    ((n : ℕ) → held n some_run.0 ≡ count n (panics ∷ adds_one ∷ [])) × IsBounded 2 some_run.0
Runs_lem_example = Runs_lem (some_run.1)

drains_example :
    (pool : Pool ℕ) × Working some_run.0 pool
    × (pool.queue ≡ [])
    × (pool.busy ≡ [])
    × (pool.spawned ≡ [])
    × ((n : ℕ) → count n pool.done ≡ count n (panics ∷ adds_one ∷ []))
drains_example = drains some_run.1 (omega arith) some_run.2

abbrev init_storage : StorageEngine → Config → Option MemoryStorage
init_storage memory_engine cfg = some queues
init_storage redis_engine cfg = none

abbrev init_authorizer : AuthorizerEngine → Config → Option DummyAuthorizer
init_authorizer proxy_engine cfg = none
init_authorizer dummy_engine cfg = some (init_dummy cfg)

abbrev started_pool : Pool (Goctopus MemoryStorage)
started_pool = start_pool 2 (started queues (make_history config) (make_limiter config))

config_starts :
    start (λ s. s) init_storage init_authorizer config ≡ ok (init_dummy config, started_pool)
unfolding start get_storage get_authorizer check_workers storage_named authorizer_named
    Text-discrete ℕ_discrete
config_starts = refl

-- A task that flushes the key `a`.
abbrev flush_task : Task (Goctopus MemoryStorage)
flush_task = record { name = 3; body = λ g. returned (send_messages memory platform flush alice g) }

flush_run :
    Runs
      (Step memory platform config)
      2
      started_pool.state
      (flush_task ∷ [])
      (schedule (queue_cap 2) flush_task started_pool)
unfolding start_pool started
flush_run = schedules flush_task begins

start-IsSound_example :
    (0 < 2)
    × (started_pool ≡ start_pool 2 started_pool.state)
    × IsSound (schedule (queue_cap 2) flush_task started_pool).state
unfolding start_pool
start-IsSound_example =
    start-IsSound (λ s. s) init_storage init_authorizer memory platform config (init_dummy config)
      started_pool (schedule (queue_cap 2) flush_task started_pool) 2 (flush_task ∷ [])
      config_starts refl flush_run ((λ g r. steps r (flushes flush alice)), tt)

zero_joined : has 0 (conns_of begun.conns alice) ≡ true
unfolding has conns_of lookup handle_ws allow started origin_allowed insert Text-discrete ℕ_discrete
zero_joined = refl

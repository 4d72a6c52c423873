-- ===== src/Lib.antt =====
-- Goctopus: a websocket server that keeps a queue of messages for each key, pushes them to the
-- connections of that key, and drops a message when a client acknowledges it or it expires.
--
-- A backend publishes by POST (`handlePost`, src/server.go): the message is read (src/message.go),
-- and a scheduled task puts it into the storage under each of its targets, into the history, tells
-- the other instances, and flushes the key (`sendMessages`, src/engine.go). A client connects
-- (`handleWs`): it is registered under the keys that the authorizer gives it, which may be wildcard
-- patterns (src/topics.go), and their backlog is flushed. It acknowledges a message by its id
-- (`handleAck`, src/client.go). A sweeper removes what is expired, and a token bucket for each client
-- address limits the requests (src/ratelimit.go).
--
-- The files:
--   Prelude          texts as lists of bytes, Go's maps as association lists, sets by loops
--   Constants        src/const.go: the names and literals on which the program decides
--   Message          src/message.go: Message, targets, toMap, marshal, unmarshal, isExpired
--   Storage          src/storage.go: the interface Storage and Notifier, as a record with laws
--   Storage.Queue    the loops over one queue in src/memory_storage.go
--   Storage.Memory   src/memory_storage.go: MemoryStorage
--   Storage.Redis    src/redis_storage.go: RedisStorage, over a Redis client
--   Topics           src/topics.go: hasWildcard, keyMatches
--   Client           src/client.go: client, its writes and its in-flight set
--   History          src/history.go: historyStore
--   Engine           src/engine.go: Goctopus and its lookups; the counters of src/metrics.go
--   Delivery         src/engine.go: sendMessages
--   Registry         the registration in handleWs, and removeClient of src/client.go
--   RateLimit        src/ratelimit.go: rateLimiter
--   Sweeper          src/engine.go: sweepKey, sweepExpired
--   Ack              src/client.go: handleAck
--   Config           src/config.go: Config, originAllowed, tlsEnabled
--   Settings         src/main.go: flags, environment, configuration file, main up to Start;
--                    parseDurationOr and parseBool of src/config.go
--   Request          requests and responses, as the handlers see them
--   Publish          src/server.go: the task of handlePost
--   Auth             allow and clientIP of src/ratelimit.go, authorizeBackend of src/server.go
--   Api              src/server.go: handleHTTP and the handlers behind it
--   Connect          src/server.go: handleWs and its task
--   Frames           src/client.go: readLoop, inflate, pingLoop
--   Pool             src/engine.go: schedule, worker, runTask
--   Lifecycle        src/engine.go: Start, Stop, reconcileLoop, the loop of sweepExpired; what the
--                    goroutines and tasks of an instance do, made of its steps; the tables of
--                    engines; src/dummy_authorizer.go
--   Health           src/metrics.go, src/version.go, and ServeHTTP of src/server.go
--   Server           the operations as steps of an instance, in any order; the states it reaches
--   Interleaving     src/engine.go, src/client.go: sendMessages with sendLock, handleAck and sweepKey,
--                    access by access, in any number of goroutines
--   Process          src/main.go: the health check, and main from the start of the instance to its end
--   GoClient         clients/go/goctopus.go: the ids already seen, a session, and the loop of Run
--   Proxy            src/proxy_authorizer.go: Export, Authorize and its cache
--   Tests            sample states, and the theorems at them
--
-- The state. `Goctopus` is a record over the state of the storage. A `*client` is a number into a
-- heap of clients, so that a client under several keys is one object. An operation takes the state
-- and gives the new one, with its result. What an operation meets on its way is an argument: the
-- clock readings, whether a write succeeds, the random id, the authorizer's answer, the handshake.
-- Theorems hold for all of them.
--
-- Locks. The storage, the history, a client and the rate limiter hold their mutex throughout each
-- method, so each method is one step. `Server.Step` interleaves whole operations in any order.
-- `Interleaving` takes `sendMessages`, `handleAck` and `sweepKey` apart into their accesses of the registry, the
-- storage, a client and the counters: a goroutine stands at a place of the routine (`Pc`), the send
-- locks are part of the state, and between any two accesses other goroutines make theirs, and the
-- other operations their steps (`Moves`). The tasks of publishing and of the backlog are there the
-- calls that they make. A run keeps the trace of what was written and acknowledged.
--
-- A loop over what arrives (`readLoop`, `pingLoop`) takes a list of it, each with what the other
-- goroutines do before; behind the end of the list reading fails. The pool of workers is a relation of
-- steps, in which a task takes effect when it ends.
--
-- Numbers. Times are nanoseconds as natural numbers, durations are integers, a UUID is a number. The
-- limiter's floats are exact: `token` units make a token, and `rate` units flow in each
-- nanosecond. Overflow of 64-bit durations and rounding of floats are outside the model. The capacity
-- of the work queue and the limit of a frame's reader, MaxMessageBytes + 1, wrap around as in the
-- source.
--
-- Fuel. Loops are structural recursion over lists, but for two. GetKeys of the Redis storage has one
-- unit for each batch of SCAN, as many as the server sends. Run of the Go client has one for each turn
-- of its loop: MaxRetries + 1 of them end it.
--
-- Go's maps iterate in an order that is not specified; here it is the order of the association list,
-- and the theorems do not mention it.
--
-- `Platform` holds the functions of packages outside the repository (time.ParseDuration, uuid.Parse,
-- encoding/json, path.Match, net.SplitHostPort) as parameters; `Storage.Redis.RedisClient` those of the
-- Redis client, `Settings.Parsers` those of strconv. They have no laws but three that theorems on the
-- Redis storage name: `IsCodec`, that encoding/json reads back what it wrote and that the text of a UUID
-- determines it; `IsRedis`, what each command does to the hashes, and that a transaction takes
-- effect wholly or not at all; and `IsComplete`, that an iteration of SCAN lists every key of its
-- pattern that is there throughout.
--
-- The Redis storage orders a queue by date, where the memory storage leaves a message that is posted
-- again in its place, so the laws of `IsStorage`, which speak of that place, are those of the memory
-- storage; the two agree as maps from a key and an id to a message.
--
-- Not modelled: keys of the Redis storage that expire there as time goes by; what happens between the
-- accesses of a registration or a removal; the order in which waiting goroutines get a send lock; the
-- HTTP server and its shutdown, but for what its calls return; parsing of flags and YAML; the
-- registering and exposing of metrics; logging; the compression of written frames; the connections;
-- and the other clients under clients/.
pub mod Prelude
pub mod Constants
pub mod Message
pub mod Storage
pub mod Topics
pub mod Client
pub mod History
pub mod Engine
pub mod Delivery
pub mod Registry
pub mod RateLimit
pub mod Sweeper
pub mod Ack
pub mod Config
pub mod Request
pub mod Publish
pub mod Auth
pub mod Api
pub mod Connect
pub mod Frames
pub mod Lifecycle
pub mod Pool
pub mod Health
pub mod Settings
pub mod Server
pub mod Interleaving
pub mod Process
pub mod GoClient
pub mod Proxy
pub mod Tests

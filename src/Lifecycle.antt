-- ===== src/Lifecycle.antt =====
-- src/engine.go: `Start`, `Stop` and a round of `reconcileLoop`; src/dummy_authorizer.go, and the
-- tables of engines in src/storage.go and src/authorization.go. What a storage's or an authorizer's
-- `Init` calls outside the program is a parameter.
pub mod Starting
pub mod Stopping
pub mod Rounds
pub mod Duties
pub mod Redelivery
pub mod Ticking
use goctopus.Constants.{engine_default, engine_memory, engine_redis, engine_dummy, engine_proxy}
use goctopus.Connect.{flush_keys}
use goctopus.Delivery.{Flush}
use goctopus.Storage.{Storage}
use goctopus.Frames.{close_client}
use goctopus.Server.{started}
use goctopus.Pool.{start_pool, Pool}
use goctopus.Engine.{storage_keys_matching, Goctopus}
use goctopus.Message.{◌>>=◌, or_fail, Platform, Outcome, ok, err}
use goctopus.History.{new_history_store, HistoryStore}
use goctopus.RateLimit.{new_rate_limiter, RateLimiter}
use goctopus.Request.{Request}
use goctopus.Config.{Config}
use goctopus.Topics.{has_wildcard}
use goctopus.Prelude.GoMap.{Map}
use goctopus.Prelude.Collect.{collect_all, nothing_collected, Collected}
use goctopus.Prelude.{
  if◌then◌else◌, decide, pos_part, ltb_ℤ, leb_ℤ, ℤ, pos, Text, Text-discrete, ℕ, ◌*◌, ◌^◌, ◌||◌,
  Option, none, some, List, [], ◌∷◌, text_key,
}

pub data StorageEngine : Type 0 where
  memory_engine redis_engine : StorageEngine

pub data AuthorizerEngine : Type 0 where
  proxy_engine dummy_engine : AuthorizerEngine

-- `Storages[engine]`
unfoldable pub storage_named : Text → Option StorageEngine
storage_named name =
    if decide (Text-discrete name engine_default) || decide (Text-discrete name engine_memory)
    then some memory_engine
    else if decide (Text-discrete name engine_redis)
    then some redis_engine
    else none

-- `Authorizers[engine]`
unfoldable pub authorizer_named : Text → Option AuthorizerEngine
authorizer_named name =
    if decide (Text-discrete name engine_default) || decide (Text-discrete name engine_proxy)
    then some proxy_engine
    else if decide (Text-discrete name engine_dummy)
    then some dummy_engine
    else none

-- The authorizer of a connection: its keys, or an error.
pub record DummyAuthorizer : Type 0 where
  pub keys : List Text

unfoldable pub init_dummy : Config → DummyAuthorizer
init_dummy cfg = record { keys = cfg.auth_url ∷ [] }

unfoldable pub authorize_dummy : DummyAuthorizer → Request → Option (List Text)
authorize_dummy d r = some d.keys

-- A float rate, as units for each nanosecond and units in a token.
unfoldable pub make_limiter : Config → Option RateLimiter
unfolding new_rate_limiter
make_limiter cfg =
    if ltb_ℤ (pos 0) cfg.rate_limit.numerator
    then some (
        new_rate_limiter (pos_part cfg.rate_limit.numerator) (cfg.rate_limit.denominator * 10 ^ 9)
          cfg.rate_burst)
    else none

unfoldable pub make_history : Config → Option HistoryStore
unfolding new_history_store
make_history cfg =
    if ltb_ℤ (pos 0) cfg.history_size
    then some (new_history_store cfg.history_size cfg.history_ttl)
    else none

-- The panics of `Start`: no such engine, an `Init` that fails, no workers.
pub data StartError : Type 0 where
  unknown_storage storage_init unknown_authorizer authorizer_init no_workers : StartError

-- `cfg.Workers <= 0`
unfoldable pub check_workers : ℤ → Outcome StartError ℕ
check_workers n = if leb_ℤ n (pos 0) then err no_workers else ok (pos_part n)

-- `init_storage` and `init_authorizer` give what `Init` leaves, `none` where it fails.
module _ {S A : Type 0} (to_lower : Text → Text) (init_storage : StorageEngine → Config → Option S)
    (init_authorizer : AuthorizerEngine → Config → Option A) where
  unfoldable pub get_storage : Config → Outcome StartError S
  unfolding storage_named
  get_storage cfg = do
    engine ← or_fail (storage_named (to_lower cfg.storage_engine)) unknown_storage
    or_fail (init_storage engine cfg) storage_init

  unfoldable pub get_authorizer : Config → Outcome StartError A
  unfolding authorizer_named
  get_authorizer cfg = do
    engine ← or_fail (authorizer_named (to_lower cfg.authorizer_engine)) unknown_authorizer
    or_fail (init_authorizer engine cfg) authorizer_init

  unfoldable pub start : Config → Outcome StartError (A × Pool (Goctopus S))
  unfolding get_storage get_authorizer check_workers make_limiter make_history started start_pool
  start cfg = do
    s ← get_storage cfg
    a ← get_authorizer cfg
    workers ← check_workers cfg.workers
    ok (a, start_pool workers (started s (make_history cfg) (make_limiter cfg)))

module _ {S : Type 0} where
  unfoldable pub close_all : List ℕ → Goctopus S → Goctopus S
  unfolding close_client
  close_all [] g = g
  close_all (cid ∷ cids) g = close_all cids (close_client cid g)

  unfoldable pub close_conns : Map Text (List ℕ) → Goctopus S → Goctopus S
  unfolding close_all
  close_conns [] g = g
  close_conns ((key, cids) ∷ conns) g = close_conns conns (close_all cids g)

  -- `Stop`, after it cancelled the context.
  unfoldable pub stop : Goctopus S → Goctopus S
  unfolding close_conns
  stop g = close_conns g.conns g

-- The snapshot of `reconcileLoop`: the concrete keys and the patterns.
unfoldable pub split_keys : Map Text (List ℕ) → List Text × List Text
unfolding has_wildcard
split_keys [] = ([], [])
split_keys ((k, cids) ∷ conns) =
    let (concrete, patterns) = split_keys conns in
    if has_wildcard k then (concrete, k ∷ patterns) else (k ∷ concrete, patterns)

module _ {S : Type 0} (st : Storage S) (p : Platform) where
  -- The loop over the patterns.
  unfoldable pub collect_stored : Collected Text → List Text → S → Collected Text × S
  unfolding storage_keys_matching collect_all
  collect_stored c [] s = (c, s)
  collect_stored c (k ∷ patterns) s =
      let (keys, s') = storage_keys_matching st p k s in
      collect_stored (collect_all c keys) patterns s'

  -- The keys of `keySet`, and the storage behind the listings.
  unfoldable pub reconcile_keys : Goctopus S → List Text × S
  unfolding split_keys collect_stored collect_all nothing_collected
  reconcile_keys g =
      let (concrete, patterns) = split_keys g.conns in
      let (c, s) = collect_stored (collect_all nothing_collected concrete) patterns g.storage in
      (c.out, s)

module _ {S : Type 0} (st : Storage S) (p : Platform) (cfg : Config) where
  -- One tick.
  unfoldable pub reconcile : (Text → Flush) → Goctopus S → Goctopus S
  unfolding reconcile_keys flush_keys
  reconcile flush_of g =
      let (keys, s) = reconcile_keys st p g in
      flush_keys st p cfg flush_of keys (record g { storage = s })

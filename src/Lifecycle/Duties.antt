-- ===== src/Lifecycle/Duties.antt =====
-- What the goroutines and the tasks of an instance do: each is made of its steps.
use goctopus.Request.{Request}
use goctopus.Api.{Moment}
use goctopus.Health.{serve_http, Pages, connects}
use goctopus.Topics.{has_wildcard}
use goctopus.Sweeper.{sweep_keys, sweep_all, sweep_expired}
use goctopus.Publish.{publish, Visit}
use goctopus.Delivery.{send_messages, Flush}
use goctopus.Connect.{flush_keys, flush_backlog, flush_backlogs, Upgrade}
use goctopus.Engine.{storage_keys_matching, Goctopus}
use goctopus.Message.{Message, Platform}
use goctopus.Storage.{Storage}
use goctopus.Config.{Config}
use goctopus.Server.{Reach, serves, publishes, connects, flushes, lists, purges, sweeps, steps}
use goctopus.Lifecycle.Stopping.{close_conns-Reach}
use goctopus.Lifecycle.{stop, split_keys, collect_stored, reconcile_keys, reconcile}
use goctopus.Prelude.Collect.{collect_all, nothing_collected, Collected}
use goctopus.Prelude.{
  Bool-cases, Text, ℕ, inl, inr, Option, none, some, List, [], ◌∷◌, arith, text_key,
}

-- A request, the task of `handlePost`, that of `handleWs`, that of a notification, a tick of `reconcileLoop`, a
-- tick of `sweepExpired`, and `Stop`.
pub data Duty : Type 0 where
  publishes_all : (Text → Visit) → Message → List Text → Duty
  sends_backlogs : (Text → Flush) → List Text → Duty
  is_notified : Flush → Text → Duty
  reconciles : (Text → Flush) → Duty
  sweeps_all : (ℕ → ℕ) → ℕ → Duty
  closes_all : Duty
  answers : Moment → Upgrade → Pages → Request → Duty

module _ {S : Type 0} (st : Storage S) (p : Platform) (cfg : Config) where
  collect_stored-Reach :
      (patterns : List Text) (c : Collected Text) (g : Goctopus S)
      → Reach st p cfg g
      → Reach st p cfg (record g { storage = (collect_stored st p c patterns g.storage).1 })
  unfolding collect_stored storage_keys_matching
  collect_stored-Reach [] c g r = r
  collect_stored-Reach (k ∷ patterns) c g r =
      let listed = record g { storage = (st.get_keys g.storage).1 } in
      collect_stored-Reach patterns (collect_all c (storage_keys_matching st p k g.storage).0)
        listed (steps r lists)

  flush_keys-Reach :
      (flush_of : Text → Flush) (keys : List Text) (g : Goctopus S)
      → Reach st p cfg g
      → Reach st p cfg (flush_keys st p cfg flush_of keys g)
  unfolding flush_keys
  flush_keys-Reach flush_of [] g r = r
  flush_keys-Reach flush_of (k ∷ keys) g r =
      flush_keys-Reach flush_of keys _ (steps r (flushes (flush_of k) k))

  reconcile-Reach :
      (flush_of : Text → Flush) (g : Goctopus S)
      → Reach st p cfg g
      → Reach st p cfg (reconcile st p cfg flush_of g)
  unfolding reconcile reconcile_keys
  reconcile-Reach flush_of g r =
      let (concrete, patterns) = split_keys g.conns in
      flush_keys-Reach flush_of (reconcile_keys st p g).0 _
        (collect_stored-Reach patterns (collect_all nothing_collected concrete) g r)

  publish-Reach :
      (visits : Text → Visit) (m : Message) (keys : List Text) (g : Goctopus S)
      → Reach st p cfg g
      → Reach st p cfg (publish st p visits m keys g)
  unfolding publish
  publish-Reach visits m [] g r = r
  publish-Reach visits m (k ∷ keys) g r =
      publish-Reach visits m keys _ (steps r (publishes visits m k))

  flush_backlog-Reach :
      (flush_of : Text → Flush) (key : Text) (g : Goctopus S)
      → Reach st p cfg g
      → Reach st p cfg (flush_backlog st p cfg flush_of key g)
  unfolding flush_backlog storage_keys_matching
  flush_backlog-Reach flush_of key g r = elim (Bool-cases (has_wildcard key)) [
    | inl e ↦
        rw (e, flush_backlog)
          (flush_keys-Reach flush_of (storage_keys_matching st p key g.storage).0 _ (steps r lists))
    | inr e ↦ rw (e, flush_backlog) (steps r (flushes (flush_of key) key))
  ]

  flush_backlogs-Reach :
      (flush_of : Text → Flush) (keys : List Text) (g : Goctopus S)
      → Reach st p cfg g
      → Reach st p cfg (flush_backlogs st p cfg flush_of keys g)
  unfolding flush_backlogs
  flush_backlogs-Reach flush_of [] g r = r
  flush_backlogs-Reach flush_of (k ∷ keys) g r =
      flush_backlogs-Reach flush_of keys _ (flush_backlog-Reach flush_of k g r)

  sweep_keys-Reach :
      (clock : ℕ → ℕ) (keys : List Text) (g : Goctopus S)
      → Reach st p cfg g
      → Reach st p cfg (sweep_keys st p clock keys g)
  unfolding sweep_keys
  sweep_keys-Reach clock [] g r = r
  sweep_keys-Reach clock (k ∷ keys) g r = sweep_keys-Reach clock keys _ (steps r (sweeps clock k))

  sweep_all-Reach :
      (clock : ℕ → ℕ) (now : ℕ) (keys : Option (List Text)) (g : Goctopus S)
      → Reach st p cfg g
      → Reach st p cfg (sweep_all st p clock now keys g)
  unfolding sweep_all
  sweep_all-Reach clock now none g r = r
  sweep_all-Reach clock now (some keys) g r = steps (sweep_keys-Reach clock keys g r) (purges now)

  serve_http-Reach :
      (t : Moment) (u : Upgrade) (pages : Pages) (r : Request) (g : Goctopus S)
      → Reach st p cfg g
      → Reach st p cfg (serve_http st p cfg t u pages r g).1
  unfolding serve_http
  serve_http-Reach t u pages r g reached =
      ground (arith, steps reached (serves t r), steps reached (connects r u))

  unfoldable pub perform : Duty → Goctopus S → Goctopus S
  unfolding publish flush_backlogs send_messages reconcile sweep_expired stop serve_http
  perform (publishes_all visits m keys) g = publish st p visits m keys g
  perform (sends_backlogs flush_of keys) g = flush_backlogs st p cfg flush_of keys g
  perform (is_notified f key) g = send_messages st p f key g
  perform (reconciles flush_of) g = reconcile st p cfg flush_of g
  perform (sweeps_all clock now) g = sweep_expired st p clock now g
  perform closes_all g = stop g
  perform (answers t u pages r) g = (serve_http st p cfg t u pages r g).1

  pub perform-Reach :
      (duty : Duty) (g : Goctopus S) → Reach st p cfg g → Reach st p cfg (perform duty g)
  unfolding perform sweep_expired stop
  perform-Reach (publishes_all visits m keys) g r = publish-Reach visits m keys g r
  perform-Reach (sends_backlogs flush_of keys) g r = flush_backlogs-Reach flush_of keys g r
  perform-Reach (is_notified f key) g r = steps r (flushes f key)
  perform-Reach (reconciles flush_of) g r = reconcile-Reach flush_of g r
  perform-Reach (sweeps_all clock now) g r =
      sweep_all-Reach clock now (st.get_keys g.storage).0 _ (steps r lists)
  perform-Reach closes_all g r = close_conns-Reach st p cfg g.conns g r
  perform-Reach (answers t u pages r) g reached = serve_http-Reach t u pages r g reached

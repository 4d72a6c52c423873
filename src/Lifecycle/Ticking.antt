-- ===== src/Lifecycle/Ticking.antt =====
-- The loops of `sweepExpired` and `reconcileLoop`, and what `Start` subscribes to.
use goctopus.Sweeper.{sweep_expired}
use goctopus.Delivery.{send_messages, Flush}
use goctopus.Engine.{Goctopus}
use goctopus.Config.{Config}
use goctopus.Storage.{Storage}
use goctopus.Message.{Platform}
use goctopus.Prelude.{if◌then◌else◌, leb_ℤ, pos, Text, ℕ, List, [], ◌∷◌, text_key, nat_key}
use goctopus.Lifecycle.{reconcile}
use goctopus.Lifecycle.Duties.{perform, perform-Reach, reconciles, sweeps_all}
use goctopus.Server.{Reach}
use goctopus.Server.Loops.{AllServing}
use goctopus.Pool.{queue_cap, schedule, Task, Pool, returned}

-- What wakes a loop: the end of the context, or a tick and what it meets.
pub data Woken (A : Type 0) : Type 0 where
  cancelled : Woken A
  tick : A → Woken A

module _ {S : Type 0} (st : Storage S) (p : Platform) (cfg : Config) where
  -- With each wake stands what the other goroutines do before it.
  unfoldable pub sweep_loop :
      List ((Goctopus S → Goctopus S) × Woken ((ℕ → ℕ) × ℕ)) → Goctopus S → Goctopus S
  unfolding sweep_expired
  sweep_loop [] g = g
  sweep_loop ((meanwhile, cancelled) ∷ wakes) g = meanwhile g
  sweep_loop ((meanwhile, tick (clock, now)) ∷ wakes) g =
      sweep_loop wakes (sweep_expired st p clock now (meanwhile g))

  unfoldable pub reconcile_ticks :
      List ((Goctopus S → Goctopus S) × Woken (Text → Flush)) → Goctopus S → Goctopus S
  unfolding reconcile
  reconcile_ticks [] g = g
  reconcile_ticks ((meanwhile, cancelled) ∷ wakes) g = meanwhile g
  reconcile_ticks ((meanwhile, tick flush_of) ∷ wakes) g =
      reconcile_ticks wakes (reconcile st p cfg flush_of (meanwhile g))

  unfoldable pub reconcile_loop :
      List ((Goctopus S → Goctopus S) × Woken (Text → Flush)) → Goctopus S → Goctopus S
  unfolding reconcile_ticks
  reconcile_loop wakes g =
      if leb_ℤ cfg.reconcile_interval (pos 0) then g else reconcile_ticks wakes g

  -- The handler of the subscription schedules a flush of the key.
  unfoldable pub on_notified : (Text → Flush) → ℕ → ℕ → Text → Pool (Goctopus S) → Pool (Goctopus S)
  unfolding schedule send_messages
  on_notified flush_of workers name key pool =
      let task : Task (Goctopus S) = record {
        name = name;
        body = λ g. returned (send_messages st p (flush_of key) key g);
      } in
      schedule (queue_cap workers) task pool

  sweep_loop-Reach :
      (wakes : List ((Goctopus S → Goctopus S) × Woken ((ℕ → ℕ) × ℕ))) (g : Goctopus S)
      → AllServing st p cfg wakes
      → Reach st p cfg g
      → Reach st p cfg (sweep_loop wakes g)
  unfolding sweep_loop perform
  sweep_loop-Reach [] g v r = r
  sweep_loop-Reach ((meanwhile, cancelled) ∷ wakes) g v r = v.0 g r
  sweep_loop-Reach ((meanwhile, tick (clock, now)) ∷ wakes) g v r =
      sweep_loop-Reach wakes _ v.1 (perform-Reach st p cfg (sweeps_all clock now) _ (v.0 g r))

  reconcile_ticks-Reach :
      (wakes : List ((Goctopus S → Goctopus S) × Woken (Text → Flush))) (g : Goctopus S)
      → AllServing st p cfg wakes
      → Reach st p cfg g
      → Reach st p cfg (reconcile_ticks wakes g)
  unfolding reconcile_ticks perform
  reconcile_ticks-Reach [] g v r = r
  reconcile_ticks-Reach ((meanwhile, cancelled) ∷ wakes) g v r = v.0 g r
  reconcile_ticks-Reach ((meanwhile, tick flush_of) ∷ wakes) g v r =
      reconcile_ticks-Reach wakes _ v.1 (perform-Reach st p cfg (reconciles flush_of) _ (v.0 g r))

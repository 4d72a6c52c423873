-- ===== src/Lifecycle/Starting.antt =====
-- What `Start` leaves.
use goctopus.Server.Soundness.{Reach-IsSound, IsSound}
use goctopus.Pool.Keeping.{AllKeep, Runs-state}
use goctopus.Message.Outcomes.{bind_ok}
use goctopus.Pool.{start_pool, Task, Pool, Runs}
use goctopus.Server.{started, Step, Reach, starts, steps}
use goctopus.Message.{Platform, ok}
use goctopus.Storage.{Storage}
use goctopus.Engine.{Goctopus}
use goctopus.Config.{Config}
use goctopus.Lifecycle.{
  make_limiter, make_history, check_workers, get_storage, get_authorizer, start, StorageEngine,
  AuthorizerEngine,
}
use goctopus.Prelude.{ℤ, pos, negsuc, Text, ℕ, ◌<◌, ◌≡◌, sym, ap, subst, ◌∙◌, Option, List, arith}

check_workers_lem : (n : ℤ) (m : ℕ) → check_workers n ≡ ok m → (n ≡ pos m) × (0 < m)
unfolding check_workers
check_workers_lem (pos n) m e = ground arith
check_workers_lem (negsuc n) m e = ground arith

-- Where `Start` does not panic, the number of workers is positive, and as many wait for tasks. From there
-- on, whatever tasks are scheduled that keep to the states an instance reaches, also when they panic,
-- and whatever steps of the instance other goroutines take, every state is sound.
pub start-IsSound :
    {S A : Type 0} (to_lower : Text → Text) (init_storage : StorageEngine → Config → Option S)
    (init_authorizer : AuthorizerEngine → Config → Option A) (st : Storage S) (p : Platform)
    (cfg : Config) (a : A) (pool pool' : Pool (Goctopus S)) (n : ℕ)
    (tasks : List (Task (Goctopus S)))
    → start to_lower init_storage init_authorizer cfg ≡ ok (a, pool)
    → cfg.workers ≡ pos n
    → Runs (Step st p cfg) n pool.state tasks pool'
    → AllKeep (Reach st p cfg) tasks
    → (0 < n) × (pool ≡ start_pool n pool.state) × IsSound pool'.state
unfolding start start_pool
start-IsSound to_lower init_storage init_authorizer st p cfg a pool pool' n tasks e w r keeps =
    let (s, storage, e1) = bind_ok (get_storage to_lower init_storage init_authorizer cfg) _ _ e in
    let (b, authorizer, e2) =
      bind_ok (get_authorizer to_lower init_storage init_authorizer cfg) _ _ e1 in
    let (m, workers, e3) = bind_ok (check_workers cfg.workers) _ _ e2 in
    let (positive, enough) = check_workers_lem cfg.workers m workers in
    let g = started s (make_history cfg) (make_limiter cfg) in
    let same_number : m ≡ n = ground arith in
    let same : start_pool m g ≡ pool = ground arith in
    let begun =
      subst (λ q. Reach st p cfg q.state) same (starts s (make_history cfg) (make_limiter cfg)) in
    (
      subst (λ k. 0 < k) same_number enough,
      sym same ∙ ap (λ k. start_pool k g) same_number ∙ ap (λ q. start_pool n q.state) same,
      Reach-IsSound st p cfg
          (Runs-state (Reach st p cfg) (λ x x' o reached. steps reached o) r keeps begun),
    )

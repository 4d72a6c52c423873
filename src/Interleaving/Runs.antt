-- ===== src/Interleaving/Runs.antt =====
-- The goroutines of one instance, and the states that they reach, with what was sent and
-- acknowledged on the way.
use goctopus.Prelude.{
  if◌then◌else◌, Text, ℕ, ◌≡◌, false, Option, none, some, List, [], ◌∷◌, ◌++◌, text_key, nat_key,
}
use goctopus.Interleaving.{
  update, take_acked, advance, Pc, Access, World, idle, waits, marked, sweeps_key,
}
use goctopus.Server.{started, Step, publishes, flushes, acknowledges, sweeps}
use goctopus.Prelude.{if◌then◌else◌, Text, ℕ, ◌≡◌, false, Option, none, some, List, [], ◌∷◌, ◌++◌}
use goctopus.Message.{Message, Platform}
use goctopus.Storage.{Storage}
use goctopus.History.{add, HistoryStore}
use goctopus.RateLimit.{RateLimiter}
use goctopus.Config.{Config}
use goctopus.Ack.{acknowledged}
use goctopus.Engine.{queue_message, notify, Goctopus}
use goctopus.Prelude.GoMap.{lookup}

pub data Event : Type 0 where
  sent : ℕ → ℕ → Event  -- a write of a message, by its id, to a client that succeeded
  acked : ℕ → ℕ → Text → Event  -- an `ACK` of a client for a message in flight under a key

pub record System (S : Type 0) : Type 0 where
  pub world : World S
  pub pcs : ℕ → Pc

unfoldable pub sends : Access → Pc → List Event
sends e (marked a cid rest) = if e.writes then sent cid a.message.id ∷ [] else []
sends e pc = []

module _ {S : Type 0} where
  unfoldable pub takes : ℕ → ℕ → Goctopus S → List Event
  takes cid id g = elim (lookup id (g.clients cid).inflight) [
    | none ↦ []
    | some key ↦ acked cid id key ∷ []
  ]

  abbrev pub goes : ℕ → World S × Pc → System S → System S
  goes i (w, pc) s = record { world = w; pcs = update s.pcs i pc }

  abbrev pub at_rest : Goctopus S → System S
  at_rest g = record { world = record { node = g; held = λ _. false }; pcs = λ _. idle }

  abbrev pub on_node : (Goctopus S → Goctopus S) → System S → System S
  on_node f s = record s { world = record s.world { node = f s.world.node } }

module _ {S : Type 0} (st : Storage S) (p : Platform) (cfg : Config) where
  -- The operations that stay whole here. A publishing task is taken apart below; flushes,
  -- acknowledgements and the sweep of a key go access by access.
  abbrev pub IsWhole : {g g' : Goctopus S} → Step st p cfg g g' → Type 0
  IsWhole (publishes visits m key) = ⊥
  IsWhole (flushes f key) = ⊥
  IsWhole (acknowledges cid payload) = ⊥
  IsWhole (sweeps clock key) = ⊥
  IsWhole _ = Unit

module _ {S : Type 0} (st : Storage S) (p : Platform) (cfg : Config) (hash : Text → ℕ) where
  pub data Moves (s : System S) : System S → List Event → Type 0 where
    schedules : (i : ℕ) (key : Text) → s.pcs i ≡ idle → Moves s (goes i (s.world, waits key) s) []
    sweeps_out :
        (i : ℕ) (key : Text) → s.pcs i ≡ idle → Moves s (goes i (s.world, sweeps_key key) s) []
    receives :
        (i cid id : ℕ) (payload : Text)
        → s.pcs i ≡ idle
        → acknowledged p payload ≡ some id
        → Moves s (goes i (take_acked cid id s.world) s) (takes cid id s.world.node)
    accesses :
        (i : ℕ) (e : Access)
        → Moves s (goes i (advance st p hash e (s.pcs i) s.world) s) (sends e (s.pcs i))
    enqueues : (m : Message) → Moves s (on_node (queue_message st p m) s) []
    records :
        (key : Text) (m : Message) (at : ℕ)
        → Moves s (on_node (λ g. record g { history = add key m at g.history }) s) []
    notifies : (key : Text) → Moves s (on_node (notify st p key) s) []
    performs :
        {g : Goctopus S} (step : Step st p cfg s.world.node g)
        → IsWhole st p cfg step
        → Moves s (on_node (λ _. g) s) []

  -- The latest event stands first.
  pub data Runs : System S → List Event → Type 0 where
    begins :
        (x : S) (history : Option HistoryStore) (limiter : Option RateLimiter)
        → Runs (at_rest (started x history limiter)) []
    moves :
        {s t : System S} {before new : List Event}
        → Runs s before
        → Moves s t new
        → Runs t (new ++ before)

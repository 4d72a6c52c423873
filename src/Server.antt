-- ===== src/Server.antt =====
-- The operations that the goroutines of one instance interleave, as steps of its state: the
-- handlers and tasks of src/server.go, the loops of src/engine.go and src/client.go.
pub mod Quiet
pub mod Sockets
pub mod Handlers
pub mod Soundness
pub mod Requests
pub mod Losses
pub mod Loops
use goctopus.Frames.{answer_ping, ping_client, close_client}
use goctopus.Client.{new_client}
use goctopus.RateLimit.{RateLimiter}
use goctopus.History.{purge, HistoryStore}
use goctopus.Sweeper.{sweep_key}
use goctopus.Registry.{remove_client}
use goctopus.Ack.{handle_ack}
use goctopus.Delivery.{send_messages, Flush}
use goctopus.Connect.{handle_ws, Upgrade}
use goctopus.Publish.{publish_to, Visit}
use goctopus.Request.{Request}
use goctopus.Api.{handle_http, Moment}
use goctopus.Engine.{Goctopus}
use goctopus.Config.{Config}
use goctopus.Message.{received, Message, Platform}
use goctopus.Storage.{Storage}
use goctopus.Prelude.{Text, ℕ, Bool, false, Option, []}

-- One operation runs, whatever it meets. A publishing task is one step for each target.
pub data Step {S : Type 0} (st : Storage S) (p : Platform) (cfg : Config) (g : Goctopus S)
    : Goctopus S → Type 0 where
  serves : (t : Moment) (r : Request) → Step st p cfg g (handle_http st p cfg t r g).2
  publishes :
      (visits : Text → Visit) (m : Message) (key : Text)
      → Step st p cfg g (publish_to st p visits m key g)
  connects : (r : Request) (u : Upgrade) → Step st p cfg g (handle_ws st p cfg r u g).1
  flushes : (f : Flush) (key : Text) → Step st p cfg g (send_messages st p f key g)
  acknowledges : (cid : ℕ) (payload : Text) → Step st p cfg g (handle_ack st p cid payload g)
  leaves : (cid : ℕ) → Step st p cfg g (remove_client cid g)
  lists : Step st p cfg g (record g { storage = (st.get_keys g.storage).1 })
  purges : (now : ℕ) → Step st p cfg g (record g { history = purge now g.history })
  pongs :
      (cid : ℕ) (writes : Bool) (payload : Text)
      → Step st p cfg g (answer_ping cid writes payload g).1
  pings : (cid : ℕ) (writes : Bool) → Step st p cfg g (ping_client cid writes g).1
  closes : (cid : ℕ) → Step st p cfg g (close_client cid g)
  sweeps : (clock : ℕ → ℕ) (key : Text) → Step st p cfg g (sweep_key st p clock key g)

-- The states of an instance that started with a storage, a history and a limiter.
unfoldable pub started : {S : Type 0} → S → Option HistoryStore → Option RateLimiter → Goctopus S
started s history limiter = record {
  conns = [];
  patterns = [];
  clients = λ x. new_client [] false;
  next = 0;
  storage = s;
  history = history;
  metrics = record { received = 0; delivered = 0; expired = 0; auth_fail = 0; delivery = [] };
  notified = [];
  limiter = limiter;
}

pub data Reach {S : Type 0} (st : Storage S) (p : Platform) (cfg : Config)
    : Goctopus S → Type 0 where
  starts :
      (s : S) (history : Option HistoryStore) (limiter : Option RateLimiter)
      → Reach st p cfg (started s history limiter)
  steps : {g g' : Goctopus S} → Reach st p cfg g → Step st p cfg g g' → Reach st p cfg g'

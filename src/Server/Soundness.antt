-- ===== src/Server/Soundness.antt =====
-- The invariant of every state that an instance reaches.
use goctopus.Server.Sockets.{answer_ping-IsQuiet, ping_client-IsQuiet, close_client-IsQuiet}
use goctopus.RateLimit.{RateLimiter}
use goctopus.History.{HistoryStore}
use goctopus.Connect.{accept, authorize, handle_ws, Upgrade}
use goctopus.Server.{
  started, Step, Reach, serves, publishes, connects, flushes, acknowledges, leaves, lists, purges,
  pongs, pings, closes, sweeps, starts, steps,
}
use goctopus.Server.Handlers.{handle_http-SameClients, SameClients}
use goctopus.Server.Quiet.{
  same-IsQuiet, IsQuiet-IsRegistry, send_messages-IsQuiet, publish_to-IsQuiet, handle_ack-IsQuiet,
  sweep_key-IsQuiet, IsQuiet,
}
use goctopus.Connect.Admission.{handle_ws-IsRegistry}
use goctopus.Registry.Removal.{remove_client-IsRegistry}
use goctopus.Registry.Invariant.{IsRegistry}
use goctopus.Registry.{save_key, save_keys, register, remove_key, remove_keys, remove_client}
use goctopus.Client.Inflight.{IsClosedOnce, close-IsClosedOnce}
use goctopus.Client.{new_client, close, Client}
use goctopus.Auth.Backend.{allow-SameService}
use goctopus.Auth.{allow, count_auth_fail}
use goctopus.Request.{Request}
use goctopus.Engine.{store, conns_of, Goctopus}
use goctopus.Config.{Config}
use goctopus.Storage.{Storage}
use goctopus.Message.{Platform}
use goctopus.Prelude.GoMap.{lookup}
use goctopus.Prelude.{
  Option-cases, Text, has, ℕ, ◌≡◌, refl, ◌∙◌, inl, inr, Bool, false, Option, List, [], ◌∷◌, arith,
}

pub record IsSound {S : Type 0} (g : Goctopus S) : Type 0 where
  pub registry : IsRegistry g
  pub closing : (x : ℕ) → IsClosedOnce (g.clients x)

pub IsQuiet-IsSound : {S : Type 0} {g g' : Goctopus S} → IsQuiet g g' → IsSound g → IsSound g'
IsQuiet-IsSound q v = record {
  registry = IsQuiet-IsRegistry q v.registry;
  closing = λ x. q.closing x (v.closing x);
}

SameClients-IsQuiet : {S : Type 0} {g g' : Goctopus S} → SameClients g g' → IsQuiet g g'
SameClients-IsQuiet h = same-IsQuiet _ _ h.conns h.patterns h.next h.clients

new_client-IsClosedOnce :
    (keys : List Text) (compress : Bool) → IsClosedOnce (new_client keys compress)
unfolding new_client
new_client-IsClosedOnce keys compress = refl

store-IsClosedOnce :
    (heap : ℕ → Client) (cid x : ℕ) (c : Client)
    → ((y : ℕ) → IsClosedOnce (heap y))
    → IsClosedOnce c
    → IsClosedOnce (store heap cid c x)
unfolding store
store-IsClosedOnce heap cid x c v h = ground (arith, v x)

module _ {S : Type 0} where
  save_keys-clients :
      (cid : ℕ) (keys : List Text) (g : Goctopus S) → (save_keys cid keys g).clients ≡ g.clients
  unfolding save_keys save_key
  save_keys-clients cid [] g = refl
  save_keys-clients cid (key ∷ keys) g = save_keys-clients cid keys (save_key cid key g)

  register-IsClosedOnce :
      (keys : List Text) (compress : Bool) (g : Goctopus S) (x : ℕ)
      → ((y : ℕ) → IsClosedOnce (g.clients y))
      → IsClosedOnce ((register keys compress g).clients x)
  unfolding register
  register-IsClosedOnce keys compress g x v = rw (save_keys-clients g.next keys _) (
      store-IsClosedOnce g.clients g.next x (new_client keys compress) v
        (new_client-IsClosedOnce keys compress))

  pub remove_keys-clients :
      (cid : ℕ) (keys : List Text) (g : Goctopus S) → (remove_keys cid keys g).clients ≡ g.clients
  unfolding remove_keys remove_key
  remove_keys-clients cid [] g = refl
  remove_keys-clients cid (key ∷ keys) g =
      remove_keys-clients cid keys (remove_key cid key g) ∙ ground arith

  remove_client-IsClosedOnce :
      (cid : ℕ) (g : Goctopus S) (x : ℕ)
      → ((y : ℕ) → IsClosedOnce (g.clients y))
      → IsClosedOnce ((remove_client cid g).clients x)
  unfolding remove_client
  remove_client-IsClosedOnce cid g x v = rw (remove_keys-clients cid (g.clients cid).keys _) (
      store-IsClosedOnce g.clients cid x (close (g.clients cid)) v
        (close-IsClosedOnce (g.clients cid) (v cid)).0)

module _ {S : Type 0} (st : Storage S) (p : Platform) (cfg : Config) where
  authorize-closing :
      (u : Upgrade) (g : Goctopus S) (x : ℕ)
      → ((y : ℕ) → IsClosedOnce (g.clients y))
      → IsClosedOnce ((authorize st p cfg u g).1.clients x)
  unfolding authorize accept count_auth_fail
  authorize-closing u g x v = elim (Option-cases u.authorized) [
    | inl e ↦ rw (e, authorize) (v x)
    | inr (keys, e) ↦ elim (Option-cases u.handshake) [
      | inl d ↦ rw (e, d, authorize, accept) (v x)
      | inr (compress, d) ↦ rw (e, d, authorize, accept) (register-IsClosedOnce keys compress g x v)
    ]
  ]

  handle_ws-IsClosedOnce :
      (r : Request) (u : Upgrade) (g : Goctopus S) (x : ℕ)
      → ((y : ℕ) → IsClosedOnce (g.clients y))
      → IsClosedOnce ((handle_ws st p cfg r u g).1.clients x)
  unfolding handle_ws
  handle_ws-IsClosedOnce r u g x v =
      let g' = (allow p cfg r u.now g).1 in
      let same = (allow-SameService p cfg r u.now g).clients in
      let kept : (y : ℕ) → IsClosedOnce (g'.clients y) = λ y. rw same (v y) in
      ground (arith, kept x, authorize-closing u g' x kept)

  pub Step-IsSound : {g g' : Goctopus S} → Step st p cfg g g' → IsSound g → IsSound g'
  Step-IsSound {g} (serves t r) v =
      IsQuiet-IsSound (SameClients-IsQuiet (handle_http-SameClients st p cfg t r g)) v
  Step-IsSound {g} (publishes visits m key) v =
      IsQuiet-IsSound (publish_to-IsQuiet st p visits m key g) v
  Step-IsSound {g} (connects r u) v = record {
    registry = handle_ws-IsRegistry st p cfg r u g v.registry;
    closing = λ x. handle_ws-IsClosedOnce r u g x v.closing;
  }
  Step-IsSound {g} (flushes f key) v = IsQuiet-IsSound (send_messages-IsQuiet st p f key g) v
  Step-IsSound {g} (acknowledges cid payload) v =
      IsQuiet-IsSound (handle_ack-IsQuiet st p cid payload g) v
  Step-IsSound {g} (leaves cid) v = record {
    registry = remove_client-IsRegistry cid g v.registry;
    closing = λ x. remove_client-IsClosedOnce cid g x v.closing;
  }
  Step-IsSound {g} lists v = IsQuiet-IsSound (same-IsQuiet g _ refl refl refl refl) v
  Step-IsSound {g} (purges now) v = IsQuiet-IsSound (same-IsQuiet g _ refl refl refl refl) v
  Step-IsSound {g} (pongs cid writes payload) v =
      IsQuiet-IsSound (answer_ping-IsQuiet cid writes payload g) v
  Step-IsSound {g} (pings cid writes) v = IsQuiet-IsSound (ping_client-IsQuiet cid writes g) v
  Step-IsSound {g} (closes cid) v = IsQuiet-IsSound (close_client-IsQuiet cid g) v
  Step-IsSound {g} (sweeps clock key) v = IsQuiet-IsSound (sweep_key-IsQuiet st p clock key g) v

  pub started-IsSound :
      (s : S) (history : Option HistoryStore) (limiter : Option RateLimiter)
      → IsSound (started s history limiter)
  unfolding started lookup conns_of has
  started-IsSound s history limiter = record {
    registry = record {
      no_empty = λ k e. cc;
      patterns_known = λ k w h e. h refl;
      patterns_used = λ k h. absurd (h refl);
      own_keys = λ k x h. cc;
    };
    closing = λ x. new_client-IsClosedOnce [] false;
  }

  -- In every state that an instance reaches, however its operations interleave: no key is kept
  -- without a connection, a wildcard key is known as a pattern exactly while it has one, a
  -- connection stands only under its own keys, and the channel `done` of a client was closed at
  -- most once, exactly if the client is closed.
  pub Reach-IsSound : {g : Goctopus S} → Reach st p cfg g → IsSound g
  Reach-IsSound (starts s history limiter) = started-IsSound s history limiter
  Reach-IsSound (steps r s) = Step-IsSound s (Reach-IsSound r)

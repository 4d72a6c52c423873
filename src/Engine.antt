-- ===== src/Engine.antt =====
-- src/engine.go: the state of an instance, and the lookups that its handlers share.
pub mod Lookup
use goctopus.Prelude.{
  if◌then◌else◌, ℤ, Text, ℕ, ite, Bool, Option, none, some, List, [], ◌∷◌, ◌++◌, ℕ_discrete,
  text_key, nat_key,
}
use goctopus.Prelude.GoMap.{Map, lookup}
use goctopus.Prelude.Collect.{collect_all, nothing_collected, Collected}
use goctopus.Message.{Message, Platform}
use goctopus.Client.{Client}
use goctopus.Storage.{Storage}
use goctopus.History.{HistoryStore}
use goctopus.RateLimit.{RateLimiter}
use goctopus.Topics.{key_matches}

-- The counters of src/metrics.go; `delivery` lists the observations of the histogram.
pub record Metrics : Type 0 where
  pub received : ℕ
  pub delivered : ℕ
  pub expired : ℕ
  pub auth_fail : ℕ
  pub delivery : List ℤ

-- A `*client` is a number, and `clients` is the heap; numbers from `next` on are not yet in use.
-- `notified` lists the keys that were published to other instances.
pub record Goctopus (S : Type 0) : Type 0 where
  pub conns : Map Text (List ℕ)
  pub patterns : List (Text × Bool)
  pub clients : ℕ → Client
  pub next : ℕ
  pub storage : S
  pub history : Option HistoryStore
  pub metrics : Metrics
  pub notified : List Text
  pub limiter : Option RateLimiter

-- The heap after a write through a pointer.
unfoldable pub store : (ℕ → Client) → ℕ → Client → ℕ → Client
store heap cid c x = ite (ℕ_discrete cid x) c (heap x)

-- `g.Conns[key]`, nil where there is no entry.
unfoldable pub conns_of : Map Text (List ℕ) → Text → List ℕ
conns_of conns key = elim (lookup key conns) [ none ↦ [] | some clients ↦ clients ]

-- The body of the loop of `clientsForKey` over the patterns.
unfoldable pub add_pattern : Platform → Text → Map Text (List ℕ) → Collected ℕ → Text → Collected ℕ
unfolding conns_of
add_pattern p key conns c pattern_key =
    if key_matches p pattern_key key then collect_all c (conns_of conns pattern_key) else c

unfoldable pub add_patterns :
    Platform → Text → Map Text (List ℕ) → Collected ℕ → List (Text × Bool) → Collected ℕ
unfolding add_pattern
add_patterns p key conns c [] = c
add_patterns p key conns c ((pattern_key, _) ∷ rest) =
    add_patterns p key conns (add_pattern p key conns c pattern_key) rest

unfoldable pub clients_for_key : Platform → Text → Map Text (List ℕ) → List (Text × Bool) → List ℕ
unfolding add_patterns
clients_for_key p key conns patterns =
    (add_patterns p key conns (collect_all nothing_collected (conns_of conns key)) patterns).out

-- The loop of `storageKeysMatching`.
unfoldable pub matching : Platform → Text → List Text → List Text
matching p pattern_key [] = []
matching p pattern_key (k ∷ keys) =
    let rest = matching p pattern_key keys in if key_matches p pattern_key k then k ∷ rest else rest

module _ {S : Type 0} (st : Storage S) (p : Platform) where
  unfoldable pub storage_keys_matching : Text → S → List Text × S
  unfolding matching
  storage_keys_matching pattern_key s =
      let (keys, s') = st.get_keys s in
      (elim keys [ none ↦ [] | some ks ↦ matching p pattern_key ks ], s')

  unfoldable pub queue_message : Message → Goctopus S → Goctopus S
  queue_message m g = record g { storage = (st.add_message m.key m g.storage).1 }

  unfoldable pub delete_msg_by_id : Text → ℕ → Goctopus S → Bool × Goctopus S
  delete_msg_by_id key id g =
      let (succeeded, s) = st.delete_message key id g.storage in
      (succeeded, record g { storage = s })

  unfoldable pub delete_msg_queue : Text → Goctopus S → Goctopus S
  delete_msg_queue key g = record g { storage = (st.delete_queue key g.storage).1 }

  -- A no-op unless the backend is a Notifier.
  unfoldable pub notify : Text → Goctopus S → Goctopus S
  notify key g = if st.notifies then record g { notified = g.notified ++ key ∷ [] } else g

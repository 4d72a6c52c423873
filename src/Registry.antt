-- ===== src/Registry.antt =====
-- The registry of connections: the part of `handleWs` in src/server.go that saves a new client, and
-- `removeClient` in src/client.go. Both hold the instance's mutex.
pub mod Invariant
pub mod Removal
use goctopus.Prelude.{
  if◌then◌else◌, Text, ℕ, ◌+◌, ite, Bool, true, List, [], ◌∷◌, ◌++◌, ℕ_discrete, text_key, nat_key,
}
use goctopus.Prelude.GoMap.{insert, delete}
use goctopus.Topics.{has_wildcard}
use goctopus.Client.{new_client, close}
use goctopus.Message.{is_empty}
use goctopus.Engine.{store, conns_of, Goctopus}

-- The inner loop of `removeClient`.
unfoldable pub live : ℕ → List ℕ → List ℕ
live cid [] = []
live cid (x ∷ xs) = let rest = live cid xs in ite (ℕ_discrete x cid) rest (x ∷ rest)

module _ {S : Type 0} where
  -- The body of the loop of `handleWs`.
  unfoldable pub save_key : ℕ → Text → Goctopus S → Goctopus S
  unfolding conns_of
  save_key cid key g = record g {
    conns = insert key (conns_of g.conns key ++ cid ∷ []) g.conns;
    patterns = if has_wildcard key then insert key true g.patterns else g.patterns;
  }

  unfoldable pub save_keys : ℕ → List Text → Goctopus S → Goctopus S
  unfolding save_key
  save_keys cid [] g = g
  save_keys cid (key ∷ keys) g = save_keys cid keys (save_key cid key g)

  -- A new client is allocated and saved under each of its keys.
  unfoldable pub register : List Text → Bool → Goctopus S → Goctopus S
  unfolding save_keys store new_client
  register keys compress g =
      save_keys g.next keys (record g {
        clients = store g.clients g.next (new_client keys compress);
        next = g.next + 1;
      })

  -- The body of its outer loop.
  unfoldable pub remove_key : ℕ → Text → Goctopus S → Goctopus S
  unfolding live conns_of
  remove_key cid key g =
      let rest = live cid (conns_of g.conns key) in
      if is_empty rest
      then record g { conns = delete key g.conns; patterns = delete key g.patterns }
      else record g { conns = insert key rest g.conns }

  unfoldable pub remove_keys : ℕ → List Text → Goctopus S → Goctopus S
  unfolding remove_key
  remove_keys cid [] g = g
  remove_keys cid (key ∷ keys) g = remove_keys cid keys (remove_key cid key g)

  unfoldable pub remove_client : ℕ → Goctopus S → Goctopus S
  unfolding remove_keys store close
  remove_client cid g =
      remove_keys cid (g.clients cid).keys
        (record g { clients = store g.clients cid (close (g.clients cid)) })

-- ===== src/Delivery.antt =====
-- src/engine.go, `sendMessages`: one flush of a key's queue to the clients of the key. The key's
-- send lock is held throughout.
pub mod Pass
pub mod Settled
pub mod Flushes
use goctopus.Prelude.{
  if◌then◌else◌, sub_ℕ, Text, ℕ, Bool, true, false, Option, none, some, List, [], ◌∷◌, ◌++◌,
  text_key, nat_key,
}
use goctopus.Message.{is_empty, marshal, is_expired, Message, Platform}
use goctopus.Client.{write_message, mark_inflight, clear_inflight, close, Client}
use goctopus.Storage.{Storage}
use goctopus.Engine.{store, clients_for_key, Goctopus}

-- What one flush meets: the time at which it looks at each message, by the message's id, and
-- whether the write of a message to a client succeeds.
pub record Flush : Type 0 where
  pub clock : ℕ → ℕ
  pub writes : ℕ → ℕ → Bool

module _ {S : Type 0} (p : Platform) (f : Flush) (key : Text) where
  -- What follows the write of a message to a client.
  unfoldable pub written : Message → ℕ → Bool × Client → Goctopus S → Goctopus S
  unfolding store
  written m cid (true, c) g = record g {
    clients = store g.clients cid c;
    metrics = record g.metrics {
      delivery = g.metrics.delivery ++ sub_ℕ (f.clock m.id) m.date ∷ [];
    };
  }
  written m cid (false, c) g = record g {
    clients = store g.clients cid (close (clear_inflight m.id c));
  }

  -- The inner loop's body.
  unfoldable pub deliver : Message → Text → ℕ → Goctopus S → Goctopus S
  unfolding written
  deliver m payload cid g =
      let (marked, c) = mark_inflight m.id key (g.clients cid) in
      if marked then written m cid (write_message (f.writes cid m.id) payload c) g else g

  unfoldable pub deliver_all : Message → Text → List ℕ → Goctopus S → Goctopus S
  unfolding deliver
  deliver_all m payload [] g = g
  deliver_all m payload (cid ∷ cids) g = deliver_all m payload cids (deliver m payload cid g)

  -- The outer loop's body.
  unfoldable pub send_message : List ℕ → Message → Goctopus S → Goctopus S
  unfolding deliver_all
  send_message cids m g =
      if is_expired p (f.clock m.id) m
      then g
      else elim (marshal p m false) [ none ↦ g | some payload ↦ deliver_all m payload cids g ]

  unfoldable pub send_queue : List ℕ → List Message → Goctopus S → Goctopus S
  unfolding send_message
  send_queue cids [] g = g
  send_queue cids (m ∷ queue) g = send_queue cids queue (send_message cids m g)

module _ {S : Type 0} (st : Storage S) (p : Platform) (f : Flush) (key : Text) where
  -- What `sendMessages` does with the reply of the storage.
  unfoldable pub send_reply : List ℕ → Option (List Message) → Goctopus S → Goctopus S
  unfolding send_queue
  send_reply cids none g = g
  send_reply cids (some queue) g = if is_empty queue then g else send_queue p f key cids queue g

  unfoldable pub send_messages : Goctopus S → Goctopus S
  unfolding send_reply
  send_messages g =
      let cids = clients_for_key p key g.conns g.patterns in
      let (reply, s) = st.get_queue key g.storage in
      if is_empty cids then g else send_reply cids reply (record g { storage = s })

-- ===== src/Interleaving.antt =====
-- src/engine.go, `sendMessages` and `sweepKey`, and src/client.go, `handleAck`, a shared access at a time: any
-- number of goroutines run them over one instance, interleaved in any order. Each access of the
-- registry holds `g.mu`, each one of a client the client's mutex, and the loop over the clients of
-- a key the key's send lock, which other flushes find taken. The hash that picks the lock is a
-- parameter.
pub mod Runs
pub mod Exclusion
pub mod Progress
pub mod Inflight
pub mod Accesses
pub mod Known
pub mod Counting
pub mod Once
pub mod Justified
pub mod Losses
use goctopus.Prelude.{
  ◌==◌, if◌then◌else◌, sub_ℕ, Text, ℕ, ◌+◌, ◌%◌, ite, Bool, true, false, Option, none, some, List,
  [], ◌∷◌, ◌++◌, ℕ_discrete, text_key, nat_key,
}
use goctopus.Prelude.{
  ◌==◌, if◌then◌else◌, sub_ℕ, Text, ℕ, ◌+◌, ◌%◌, ite, Bool, true, false, Option, none, some, List,
  [], ◌∷◌, ◌++◌, ℕ_discrete,
}
use goctopus.Message.{is_empty, marshal, is_expired, Message, Platform}
use goctopus.Client.{write_message, mark_inflight, take_inflight, clear_inflight, close, Client}
use goctopus.Storage.{Storage}
use goctopus.Ack.{count_delivered}
use goctopus.Engine.{store, clients_for_key, delete_msg_by_id, Goctopus}

abbrev send_shards : ℕ
send_shards = 256

-- A message on its way to the clients of a key, with the messages of the queue that follow it.
pub record Place : Type 0 where
  pub key : Text
  pub clients : List ℕ
  pub queue : List Message
  pub message : Message
  pub payload : Text

-- Where a goroutine stands, with the variables that are live there.
pub data Pc : Type 0 where
  idle : Pc
  waits : Text → Pc  -- `sl.Lock()`
  locked : Text → Pc  -- before `clientsForKey`
  snapshot : Text → List ℕ → Pc  -- after `g.mu.Unlock()`
  outer : Text → List ℕ → List Message → Pc  -- head of the loop over the queue
  inner : Place → List ℕ → Pc  -- head of the loop over the clients
  marked : Place → ℕ → List ℕ → Pc  -- before `writeMessage`
  wrote : Place → List ℕ → Pc  -- before `Observe`
  failed : Place → ℕ → List ℕ → Pc  -- before `clearInflight`
  cleared : Place → ℕ → List ℕ → Pc  -- before `close`
  leaving : Text → Pc  -- the deferred `sl.Unlock()`
  taken : ℕ → Text → Pc  -- before `deleteMsgById` of `handleAck`
  counting : Pc  -- before `delivered.Add`
  sweeps_key : Text → Pc  -- before `getMsgQueue` of `sweepKey`
  sweeping : Text → List Message → ℕ → Pc  -- head of its loop, with the number removed
  doomed : Text → Message → List Message → ℕ → Pc  -- before its `deleteMsgById`
  swept : ℕ → Pc  -- before `expired.Add`

-- What one access meets: the time at which it looks, and whether a write succeeds.
pub record Access : Type 0 where
  pub clock : ℕ
  pub writes : Bool

-- `held` tells which send locks are taken.
pub record World (S : Type 0) : Type 0 where
  pub node : Goctopus S
  pub held : ℕ → Bool

unfoldable pub update {ℓ} : {A : Type ℓ} → (ℕ → A) → ℕ → A → ℕ → A
update values at new x = ite (ℕ_discrete at x) new (values x)

-- `sendLock`
unfoldable pub send_lock : (Text → ℕ) → Text → ℕ
send_lock hash key = hash key % send_shards

-- Where a flush goes from the reply of the storage.
unfoldable pub after_reply : Text → List ℕ → Option (List Message) → Pc
after_reply key cids none = leaving key
after_reply key cids (some queue) = if is_empty queue then leaving key else outer key cids queue

module _ {S : Type 0} where
  unfoldable pub at_client : ℕ → Client → World S → World S
  unfolding store
  at_client cid c w = record w { node = record w.node { clients = store w.node.clients cid c } }

  -- `g.metrics.delivery.Observe`
  unfoldable pub observe : ℕ → Message → Goctopus S → Goctopus S
  observe now m g = record g {
    metrics = record g.metrics { delivery = g.metrics.delivery ++ sub_ℕ now m.date ∷ [] };
  }

  -- The first access of `handleAck`.
  unfoldable pub take_acked : ℕ → ℕ → World S → World S × Pc
  unfolding at_client
  take_acked cid id w =
      let (key, c) = take_inflight id (w.node.clients cid) in
      (at_client cid c w, elim key [ none ↦ counting | some k ↦ taken id k ])

  -- `g.metrics.expired.Add`
  unfoldable pub count_removed : ℕ → Goctopus S → Goctopus S
  count_removed removed g = record g {
    metrics = record g.metrics { expired = g.metrics.expired + removed };
  }

module _ {S : Type 0} (st : Storage S) (p : Platform) (hash : Text → ℕ) where
  -- The next access of a goroutine.
  unfoldable pub advance : Access → Pc → World S → World S × Pc
  unfolding send_lock after_reply at_client observe count_removed
  advance e idle w = (w, idle)
  advance e (waits key) w =
      if w.held (send_lock hash key)
      then (w, waits key)
      else (record w { held = update w.held (send_lock hash key) true }, locked key)
  advance e (locked key) w = (w, snapshot key (clients_for_key p key w.node.conns w.node.patterns))
  advance e (snapshot key cids) w =
      let (reply, s) = st.get_queue key w.node.storage in
      if is_empty cids
      then (w, leaving key)
      else (record w { node = record w.node { storage = s } }, after_reply key cids reply)
  advance e (outer key cids []) w = (w, leaving key)
  advance e (outer key cids (m ∷ queue)) w =
      if is_expired p e.clock m then (w, outer key cids queue) else elim (marshal p m false) [
        | none ↦ (w, outer key cids queue)
        | some payload ↦
            let place : Place = record {
              key = key;
              clients = cids;
              queue = queue;
              message = m;
              payload = payload;
            } in
            (w, inner place cids)
      ]
  advance e (inner a []) w = (w, outer a.key a.clients a.queue)
  advance e (inner a (cid ∷ rest)) w =
      let (first, c) = mark_inflight a.message.id a.key (w.node.clients cid) in
      if first then (at_client cid c w, marked a cid rest) else (w, inner a rest)
  advance e (marked a cid rest) w =
      let (sent, c) = write_message e.writes a.payload (w.node.clients cid) in
      (at_client cid c w, if sent then wrote a rest else failed a cid rest)
  advance e (wrote a rest) w = (record w { node = observe e.clock a.message w.node }, inner a rest)
  advance e (failed a cid rest) w =
      (at_client cid (clear_inflight a.message.id (w.node.clients cid)) w, cleared a cid rest)
  advance e (cleared a cid rest) w = (at_client cid (close (w.node.clients cid)) w, inner a rest)
  advance e (leaving key) w = (record w { held = update w.held (send_lock hash key) false }, idle)
  advance e (taken id key) w =
      (record w { node = (delete_msg_by_id st p key id w.node).1 }, counting)
  advance e counting w = (record w { node = count_delivered st p w.node }, idle)
  advance e (sweeps_key key) w =
      let (reply, s) = st.get_queue key w.node.storage in
      (
        record w { node = record w.node { storage = s } },
        elim reply [ none ↦ idle | some queue ↦ sweeping key queue 0 ],
      )
  advance e (sweeping key [] removed) w = (w, if removed == 0 then idle else swept removed)
  advance e (sweeping key (m ∷ queue) removed) w =
      (w, if is_expired p e.clock m then doomed key m queue removed else sweeping key queue removed)
  advance e (doomed key m queue removed) w = (
    record w { node = (delete_msg_by_id st p key m.id w.node).1 },
    sweeping key queue (removed + 1),
  )
  advance e (swept removed) w = (record w { node = count_removed removed w.node }, idle)

-- ===== src/Server/Losses.antt =====
-- By which operations a queue loses a message.
use goctopus.Server.Sockets.{answer_ping-storage, ping_client-storage, close_client-storage}
use goctopus.Server.Requests.{handle_http-holds}
use goctopus.Connect.{accept, authorize, handle_ws, Upgrade}
use goctopus.Sweeper.{sweep_queue, count_expired, sweep_reply, sweep_key}
use goctopus.Server.{
  Step, serves, publishes, connects, flushes, acknowledges, leaves, lists, purges, pongs, pings,
  closes, sweeps,
}
use goctopus.Ack.Effect.{handle_ack-inflight, handle_ack-unknown}
use goctopus.Ack.{acknowledged, handle_ack}
use goctopus.Publish.{publish_to, Visit}
use goctopus.Delivery.Flushes.{send_messages-view}
use goctopus.Registry.{save_key, save_keys, register, remove_key, remove_keys, remove_client}
use goctopus.Auth.Backend.{IsAuthorized, allow-SameService}
use goctopus.Auth.{allow, count_auth_fail}
use goctopus.Request.{Method, Request}
use goctopus.Engine.{queue_message, delete_msg_by_id, notify, Goctopus}
use goctopus.Config.{Config}
use goctopus.Storage.Queue.{upsert, without, holds}
use goctopus.Storage.{Storage, IsStorage}
use goctopus.Message.{is_expired, Message, Platform}
use goctopus.Prelude.GoMap.{lookup}
use goctopus.Prelude.{
  Bool-cases, Option-cases, decide, Text, Text-discrete, ℕ, ◌+◌, ◌≡◌, refl, sym, ap, ◌∙◌, ◌≢◌, ◌⊎◌,
  inl, inr, Bool, true, false, ◌&&◌, ◌||◌, some, List, [], ◌∷◌, arith, ℕ_discrete, nat_key,
}

-- Whether a message with this id in the queue is expired when it is looked at.
unfoldable pub expired_in : Platform → (ℕ → ℕ) → ℕ → List Message → Bool
expired_in p clock id [] = false
expired_in p clock id (m ∷ q) =
    decide (ℕ_discrete m.id id) && is_expired p (clock m.id) m || expired_in p clock id q

pub holds-upsert :
    (m : Message) (id : ℕ) (q : List Message) → holds id q ≡ true → holds id (upsert m q) ≡ true
unfolding holds upsert
holds-upsert m id [] h = cc
holds-upsert m id (x ∷ xs) h = ground (arith, holds-upsert m id xs)

holds-without :
    (id other : ℕ) (q : List Message)
    → other ≢ id
    → holds id q ≡ true
    → holds id (without other q) ≡ true
unfolding holds without
holds-without id other [] ne h = cc
holds-without id other (x ∷ xs) ne h = ground (arith, holds-without id other xs ne)

module _ {S : Type 0} (st : Storage S) (view : S → Text → List Message) (law : IsStorage st view)
    (p : Platform) (cfg : Config) where
  -- What a step must be for the queue of a key to lose the message with an id.
  abbrev pub Loses : {g g' : Goctopus S} → Step st p cfg g g' → Text → ℕ → Type 0
  Loses (serves t r) key id = (r.method ≡ Method.delete) × IsAuthorized cfg r
  Loses {g} (acknowledges cid payload) key id =
      (acknowledged p payload ≡ some id) × (lookup id (g.clients cid).inflight ≡ some key)
  Loses {g} (sweeps clock k) key id =
      (k ≡ key) × (expired_in p clock id (view g.storage key) ≡ true)
  Loses (publishes visits m k) key id = ⊥
  Loses (connects r u) key id = ⊥
  Loses (flushes f k) key id = ⊥
  Loses (leaves cid) key id = ⊥
  Loses lists key id = ⊥
  Loses (purges now) key id = ⊥
  Loses (pongs cid writes payload) key id = ⊥
  Loses (pings cid writes) key id = ⊥
  Loses (closes cid) key id = ⊥

  pub notify-storage : (key : Text) (g : Goctopus S) → (notify st p key g).storage ≡ g.storage
  unfolding notify
  notify-storage key g = ground arith

  publish_to-holds :
      (visits : Text → Visit) (m : Message) (k key : Text) (id : ℕ) (g : Goctopus S)
      → holds id (view g.storage key) ≡ true
      → holds id (view (publish_to st p visits m k g).storage key) ≡ true
  unfolding publish_to queue_message
  publish_to-holds visits m k key id g h =
      let mk = record m { key = k } in
      rw (send_messages-view st view law p k (visits k).flush _ key, notify-storage k _)
        (ground (
          arith,
          law.add_message_view k key mk g.storage,
          holds-upsert mk id (view g.storage key) h,
        ))

  save_keys-storage :
      (cid : ℕ) (keys : List Text) (g : Goctopus S) → (save_keys cid keys g).storage ≡ g.storage
  unfolding save_keys save_key
  save_keys-storage cid [] g = refl
  save_keys-storage cid (key ∷ keys) g = save_keys-storage cid keys (save_key cid key g)

  remove_keys-storage :
      (cid : ℕ) (keys : List Text) (g : Goctopus S) → (remove_keys cid keys g).storage ≡ g.storage
  unfolding remove_keys remove_key
  remove_keys-storage cid [] g = refl
  remove_keys-storage cid (key ∷ keys) g =
      remove_keys-storage cid keys (remove_key cid key g) ∙ ground arith

  remove_client-storage : (cid : ℕ) (g : Goctopus S) → (remove_client cid g).storage ≡ g.storage
  unfolding remove_client
  remove_client-storage cid g = remove_keys-storage cid (g.clients cid).keys _

  authorize-storage :
      (u : Upgrade) (g : Goctopus S) → (authorize st p cfg u g).1.storage ≡ g.storage
  unfolding authorize accept count_auth_fail register
  authorize-storage u g = elim (Option-cases u.authorized) [
    | inl e ↦ rw (e, authorize) refl
    | inr (keys, e) ↦ elim (Option-cases u.handshake) [
      | inl d ↦ rw (e, d, authorize, accept) refl
      | inr (compress, d) ↦ rw (e, d, authorize, accept, register) (save_keys-storage g.next keys _)
    ]
  ]

  handle_ws-storage :
      (r : Request) (u : Upgrade) (g : Goctopus S)
      → (handle_ws st p cfg r u g).1.storage ≡ g.storage
  unfolding handle_ws
  handle_ws-storage r u g =
      let g' = (allow p cfg r u.now g).1 in
      ground (arith, (allow-SameService p cfg r u.now g).storage, authorize-storage u g')

  ack-holds :
      (cid : ℕ) (payload : Text) (key : Text) (id : ℕ) (g : Goctopus S)
      → holds id (view g.storage key) ≡ true
      → (holds id (view (handle_ack st p cid payload g).storage key) ≡ true)
        ⊎ ((acknowledged p payload ≡ some id) × (lookup id (g.clients cid).inflight ≡ some key))
  unfolding handle_ack
  ack-holds cid payload key id g h = elim (Option-cases (acknowledged p payload)) [
    | inl e ↦ inl (rw (e, handle_ack) h)
    | inr (i, e) ↦ elim (Option-cases (lookup i (g.clients cid).inflight)) [
      | inl d ↦ inl (rw ((handle_ack-unknown st view law p cid i payload e g d).0) h)
      | inr (k, d) ↦
          let effect = (handle_ack-inflight st view law p cid i payload e g k d).0 key in
          elim (Text-discrete k key) [
            | no other_key ↦ inl (ground (arith, effect))
            | yes same_key ↦ elim (ℕ_discrete i id) [
              | no other_id ↦ inl (ground (arith, effect, holds-without id i (view g.storage k)))
              | yes same_id ↦ inr (e ∙ ap some same_id, rw (sym same_id) (d ∙ ap some same_key))
            ]
          ]
    ]
  ]

  pub delete_holds :
      (k key : Text) (other id : ℕ) (s : S)
      → holds id (view s key) ≡ true
      → (holds id (view (st.delete_message k other s).1 key) ≡ true) ⊎ ((k ≡ key) × (other ≡ id))
  delete_holds k key other id s h = elim (Text-discrete k key) [
    | no other_key ↦ inl (ground (arith, law.delete_message_view k key other s))
    | yes same_key ↦ elim (ℕ_discrete other id) [
      | yes same_id ↦ inr (same_key, same_id)
      | no other_id ↦ inl (
          ground (
            arith,
            law.delete_message_view k key other s,
            holds-without id other (view s k) other_id,
          ))
    ]
  ]

  sweep_queue-holds :
      (clock : ℕ → ℕ) (k key : Text) (id : ℕ) (q : List Message) (n : ℕ) (g : Goctopus S)
      → holds id (view g.storage key) ≡ true
      → (holds id (view (sweep_queue st p clock k q n g).1.storage key) ≡ true)
        ⊎ ((k ≡ key) × (expired_in p clock id q ≡ true))
  unfolding sweep_queue delete_msg_by_id expired_in
  sweep_queue-holds clock k key id [] n g h = inl h
  sweep_queue-holds clock k key id (m ∷ q) n g h = elim (Bool-cases (is_expired p (clock m.id) m)) [
    | inr e ↦ ground (arith, sweep_queue-holds clock k key id q n g h)
    | inl e ↦ elim (delete_holds k key m.id id g.storage h) [
      | inr (same_key, same_id) ↦ inr (same_key, ground arith)
      | inl kept ↦ ground (
        arith,
        sweep_queue-holds clock k key id q (n + 1) (delete_msg_by_id st p k m.id g).1 kept,
      )
    ]
  ]

  count_expired-storage :
      (clock : ℕ → ℕ) (r : ℕ × Goctopus S) → (count_expired st p clock r).storage ≡ r.1.storage
  unfolding count_expired
  count_expired-storage clock (n, g) = ground arith

  sweep_key-holds :
      (clock : ℕ → ℕ) (k key : Text) (id : ℕ) (g : Goctopus S)
      → holds id (view g.storage key) ≡ true
      → (holds id (view (sweep_key st p clock k g).storage key) ≡ true)
        ⊎ ((k ≡ key) × (expired_in p clock id (view g.storage key) ≡ true))
  unfolding sweep_key sweep_reply
  sweep_key-holds clock k key id g h =
      let s = (st.get_queue k g.storage).1 in
      let g' = record g { storage = s } in
      let kept : holds id (view s key) ≡ true = rw (law.get_queue_view k key g.storage) h in
      elim (law.get_queue_result k g.storage) [
        | inl e ↦ inl (rw (e, sweep_reply) kept)
        | inr e ↦ elim (sweep_queue-holds clock k key id (view g.storage k) 0 g' kept) [
          | inl still ↦ inl (rw (e, sweep_reply, count_expired-storage clock _) still)
          | inr (same_key, expired) ↦ inr (same_key, rw (sym same_key) expired)
        ]
      ]

  -- A message is lost by nothing but what may remove it. Over a storage that keeps to the
  -- interface, whatever step the instance takes: if a message with an id stands in the queue of
  -- a key, one with that id still stands there afterwards, unless the step is an
  -- acknowledgement of that id by a client where it is in flight under that key; or a sweep of
  -- that key that finds a message with that id expired; or an authorized DELETE.
  pub Step-holds :
      {g g' : Goctopus S} (step : Step st p cfg g g') (key : Text) (id : ℕ)
      → holds id (view g.storage key) ≡ true
      → (holds id (view g'.storage key) ≡ true) ⊎ Loses step key id
  Step-holds {g} (serves t r) key id h = handle_http-holds st view law p cfg t r key id g h
  Step-holds {g} (publishes visits m k) key id h = inl (publish_to-holds visits m k key id g h)
  Step-holds {g} (connects r u) key id h = inl (rw (handle_ws-storage r u g) h)
  Step-holds {g} (flushes f k) key id h = inl (rw (send_messages-view st view law p k f g key) h)
  Step-holds {g} (acknowledges cid payload) key id h = ack-holds cid payload key id g h
  Step-holds {g} (leaves cid) key id h = inl (rw (remove_client-storage cid g) h)
  Step-holds {g} lists key id h = inl (rw (law.get_keys_view key g.storage) h)
  Step-holds {g} (purges now) key id h = inl h
  Step-holds {g} (pongs cid writes payload) key id h =
      inl (rw (answer_ping-storage cid writes payload g) h)
  Step-holds {g} (pings cid writes) key id h = inl (rw (ping_client-storage cid writes g) h)
  Step-holds {g} (closes cid) key id h = inl (rw (close_client-storage cid g) h)
  Step-holds {g} (sweeps clock k) key id h = sweep_key-holds clock k key id g h

-- ===== src/Api.antt =====
-- src/server.go: the JSON API, from `handleHTTP` down.
pub mod Guard
pub mod Delete
use goctopus.Constants.{query_key, query_id, query_presence, query_history}
use goctopus.Prelude.{
  ltb, if◌then◌else◌, length, Text, ℕ, ◌+◌, true, not, ◌&&◌, Option, none, some, List, [], ◌∷◌,
  text_key,
}
use goctopus.Prelude.GoMap.{Map}
use goctopus.Message.{
  is_empty, to_map, received, is_expired, unmarshal, Message, Entry, Platform, Outcome, ReadError,
  ok, err, panic,
}
use goctopus.History
use goctopus.Storage.{Storage}
use goctopus.Config.{Config}
use goctopus.Request.{get_text, has_text, Method, Request, Response, status, written, panicked}
use goctopus.Auth.{allow, authorize_backend}
use goctopus.Engine.{delete_msg_by_id, delete_msg_queue, Goctopus}

-- http.MaxBytesReader: reading more than the limit is an error.
unfoldable pub limited : ℕ → Option Text → Option Text
limited max none = none
limited max (some b) = if ltb max (length b) then none else some b

abbrev pub or_status : Option Text → ℕ → Response
or_status none code = status code
or_status (some b) code = written b

unfoldable pub to_maps : List Message → List (Map Text Entry)
unfolding to_map
to_maps [] = []
to_maps (m ∷ ms) = to_map m true ∷ to_maps ms

-- The loop of `handlePresence`.
unfoldable pub counts : Map Text (List ℕ) → Map Text ℕ
counts [] = []
counts ((k, clients) ∷ rest) = (k, length clients) ∷ counts rest

-- The times and the random number that a request meets.
pub record Moment : Type 0 where
  pub now : ℕ
  pub clock : ℕ → ℕ
  pub random_id : Option ℕ

module _ {S : Type 0} (st : Storage S) (p : Platform) (cfg : Config) (t : Moment) where
  -- The messages that `getMarshalledMessages` lists.
  unfoldable pub unexpired_maps : List Message → List (Map Text Entry)
  unfolding to_map
  unexpired_maps [] = []
  unexpired_maps (m ∷ q) =
      let rest = unexpired_maps q in
      if is_expired p (t.clock m.id) m then rest else to_map m true ∷ rest

  unfoldable pub keys_response : Option (List Text) → Response
  keys_response none = status 400
  keys_response (some keys) = or_status (p.marshal_keys keys) 400

  unfoldable pub messages_response : Option (List Message) → Response
  unfolding unexpired_maps
  messages_response none = status 400
  messages_response (some q) = or_status (p.marshal_payloads (unexpired_maps q)) 400

  unfoldable pub handle_presence : Goctopus S → Response
  unfolding counts
  handle_presence g = or_status (p.marshal_counts (counts g.conns)) 500

  unfoldable pub handle_history : Text → Goctopus S → Response × Goctopus S
  unfolding to_maps
  handle_history key g =
      let (msgs, h) = History.get key t.now g.history in
      (or_status (p.marshal_payloads (to_maps msgs)) 500, record g { history = h })

  unfoldable pub handle_get : Request → Goctopus S → Response × Goctopus S
  unfolding keys_response messages_response handle_presence handle_history get_text has_text
  handle_get r g =
      let key = get_text query_key r.query in
      let (keys, s) = st.get_keys g.storage in
      let (queue, s') = st.get_queue key g.storage in
      if has_text query_presence r.query
      then (handle_presence g, g)
      else if not (is_empty key) && has_text query_history r.query
      then handle_history key g
      else if is_empty key
      then (keys_response keys, record g { storage = s })
      else (messages_response queue, record g { storage = s' })

  -- The loop of `handleDelete` over all keys.
  unfoldable pub delete_queues : List Text → Goctopus S → Goctopus S
  unfolding delete_msg_queue
  delete_queues [] g = g
  delete_queues (k ∷ keys) g = delete_queues keys (delete_msg_queue st p k g)

  unfoldable pub delete_all : Option (List Text) → Goctopus S → Response × Goctopus S
  unfolding delete_queues
  delete_all none g = (status 400, g)
  delete_all (some keys) g = (status 200, delete_queues keys g)

  unfoldable pub delete_one : Text → Option ℕ → Goctopus S → Response × Goctopus S
  unfolding delete_msg_by_id
  delete_one key none g = (status 400, g)
  delete_one key (some id) g =
      let (succeeded, g') = delete_msg_by_id st p key id g in
      (if succeeded then status 200 else status 400, g')

  unfoldable pub handle_delete : Request → Goctopus S → Response × Goctopus S
  unfolding delete_all
  handle_delete r g =
      let key = get_text query_key r.query in
      let id_text = get_text query_id r.query in
      let (keys, s) = st.get_keys g.storage in
      if not (is_empty id_text) && is_empty key
      then (status 400, g)
      else if is_empty key
      then delete_all keys (record g { storage = s })
      else if is_empty id_text
      then (status 200, delete_msg_queue st p key g)
      else delete_one key (p.parse_uuid id_text) g

  -- The message that is returned is published by a scheduled task, `Publish.publish`.
  unfoldable pub accept :
      Outcome ReadError Message → Goctopus S → Response × Option Message × Goctopus S
  accept (err e) g = (status 400, none, g)
  accept panic g = (panicked, none, g)
  accept (ok m) g = (
    status 202,
    some m,
    record g { metrics = record g.metrics { received = g.metrics.received + 1 } },
  )

  unfoldable pub handle_post : Request → Goctopus S → Response × Option Message × Goctopus S
  unfolding accept limited
  handle_post r g =
      accept
        (unmarshal p cfg.default_expire t.now t.random_id (limited cfg.max_message_bytes r.body)) g

  abbrev pub no_task : Response × Goctopus S → Response × Option Message × Goctopus S
  no_task (response, g) = (response, none, g)

  unfoldable pub dispatch : Method → Request → Goctopus S → Response × Option Message × Goctopus S
  unfolding handle_post handle_get handle_delete
  dispatch Method.post r g = handle_post r g
  dispatch Method.get r g = no_task (handle_get r g)
  dispatch Method.delete r g = no_task (handle_delete r g)
  dispatch Method.other r g = (status 405, none, g)

  -- The handler behind the rate limit.
  unfoldable pub guarded : Request → Goctopus S → Response × Option Message × Goctopus S
  guarded r g =
      let (refused, g') = authorize_backend cfg r g in
      elim refused [ some code ↦ (status code, none, g') | none ↦ dispatch r.method r g' ]

  unfoldable pub handle_http : Request → Goctopus S → Response × Option Message × Goctopus S
  unfolding guarded
  handle_http r g =
      let (allowed, g') = allow p cfg r t.now g in
      if allowed then guarded r g' else (status 429, none, g')

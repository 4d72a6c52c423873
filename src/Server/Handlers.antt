-- ===== src/Server/Handlers.antt =====
-- The JSON API leaves the registry and the clients alone.
use goctopus.Constants.{query_key, query_id}
use goctopus.Auth.Backend.{allow-SameService, SameService}
use goctopus.Auth.{allow, count_auth_fail, compare_credentials, authorize_backend}
use goctopus.Request.{get_text, Method, Request}
use goctopus.Api.{
  handle_history, handle_get, delete_queues, delete_all, delete_one, handle_delete, accept,
  handle_post, dispatch, guarded, handle_http, Moment,
}
use goctopus.Engine.{delete_msg_by_id, delete_msg_queue, Goctopus}
use goctopus.Config.{Config}
use goctopus.Storage.{Storage}
use goctopus.Message.{Message, Platform, Outcome, ReadError, ok, err, panic}
use goctopus.Prelude.{
  Bool-cases, Option-cases, Text, ℕ, ◌≡◌, refl, ◌∙◌, inl, inr, Option, none, some, List, [], ◌∷◌,
  arith,
}

-- What every handler of the JSON API keeps.
pub record SameClients {S : Type 0} (g g' : Goctopus S) : Type 0 where
  pub conns : g'.conns ≡ g.conns
  pub patterns : g'.patterns ≡ g.patterns
  pub next : g'.next ≡ g.next
  pub clients : g'.clients ≡ g.clients

SameClients-refl : {S : Type 0} {g : Goctopus S} → SameClients g g
SameClients-refl = record { conns = refl; patterns = refl; next = refl; clients = refl }

SameClients-trans :
    {S : Type 0} {a b c : Goctopus S} → SameClients a b → SameClients b c → SameClients a c
SameClients-trans h k = record {
  conns = k.conns ∙ h.conns;
  patterns = k.patterns ∙ h.patterns;
  next = k.next ∙ h.next;
  clients = k.clients ∙ h.clients;
}

pub SameService-SameClients : {S : Type 0} {g g' : Goctopus S} → SameService g g' → SameClients g g'
SameService-SameClients h = record {
  conns = h.conns;
  patterns = h.patterns;
  next = h.next;
  clients = h.clients;
}

module _ {S : Type 0} (st : Storage S) (p : Platform) (cfg : Config) (t : Moment) where
  delete_queues-SameClients :
      (keys : List Text) (g : Goctopus S) → SameClients g (delete_queues st p cfg t keys g)
  unfolding delete_queues delete_msg_queue
  delete_queues-SameClients [] g = SameClients-refl
  delete_queues-SameClients (k ∷ keys) g =
      SameClients-trans (record { conns = refl; patterns = refl; next = refl; clients = refl })
        (delete_queues-SameClients keys (delete_msg_queue st p k g))

  delete_all-SameClients :
      (keys : Option (List Text)) (g : Goctopus S) → SameClients g (delete_all st p cfg t keys g).1
  unfolding delete_all
  delete_all-SameClients none g = SameClients-refl
  delete_all-SameClients (some keys) g = delete_queues-SameClients keys g

  delete_one-SameClients :
      (key : Text) (id : Option ℕ) (g : Goctopus S)
      → SameClients g (delete_one st p cfg t key id g).1
  unfolding delete_one delete_msg_by_id
  delete_one-SameClients key none g = SameClients-refl
  delete_one-SameClients key (some id) g = record {
    conns = refl;
    patterns = refl;
    next = refl;
    clients = refl;
  }

  handle_delete-SameClients :
      (r : Request) (g : Goctopus S) → SameClients g (handle_delete st p cfg t r g).1
  unfolding handle_delete delete_msg_queue
  handle_delete-SameClients r g =
      let id_text = get_text query_id r.query in
      let key = get_text query_key r.query in
      let (keys, s) = st.get_keys g.storage in
      let all = delete_all-SameClients keys (record g { storage = s }) in
      let one = delete_one-SameClients key (p.parse_uuid id_text) g in
      record {
        conns = ground (arith, all.conns, one.conns);
        patterns = ground (arith, all.patterns, one.patterns);
        next = ground (arith, all.next, one.next);
        clients = ground (arith, all.clients, one.clients);
      }

  handle_get-SameClients :
      (r : Request) (g : Goctopus S) → SameClients g (handle_get st p cfg t r g).1
  unfolding handle_get handle_history
  handle_get-SameClients r g = record {
    conns = ground arith;
    patterns = ground arith;
    next = ground arith;
    clients = ground arith;
  }

  accept-SameClients :
      (o : Outcome ReadError Message) (g : Goctopus S) → SameClients g (accept st p cfg t o g).2
  unfolding accept
  accept-SameClients (err e) g = SameClients-refl
  accept-SameClients panic g = SameClients-refl
  accept-SameClients (ok m) g = record {
    conns = refl;
    patterns = refl;
    next = refl;
    clients = refl;
  }

  handle_post-SameClients :
      (r : Request) (g : Goctopus S) → SameClients g (handle_post st p cfg t r g).2
  unfolding handle_post
  handle_post-SameClients r g = accept-SameClients _ g

  dispatch-SameClients :
      (m : Method) (r : Request) (g : Goctopus S) → SameClients g (dispatch st p cfg t m r g).2
  unfolding dispatch
  dispatch-SameClients Method.post r g = handle_post-SameClients r g
  dispatch-SameClients Method.get r g = handle_get-SameClients r g
  dispatch-SameClients Method.delete r g = handle_delete-SameClients r g
  dispatch-SameClients Method.other r g = SameClients-refl

  authorize_backend-SameClients :
      (r : Request) (g : Goctopus S) → SameClients g (authorize_backend cfg r g).1
  unfolding authorize_backend compare_credentials count_auth_fail
  authorize_backend-SameClients r g = record {
    conns = ground arith;
    patterns = ground arith;
    next = ground arith;
    clients = ground arith;
  }

  guarded-SameClients : (r : Request) (g : Goctopus S) → SameClients g (guarded st p cfg t r g).2
  unfolding guarded
  guarded-SameClients r g =
      let g' = (authorize_backend cfg r g).1 in
      let before = authorize_backend-SameClients r g in
      elim (Option-cases (authorize_backend cfg r g).0) [
        | inl e ↦ rw (e, guarded) (SameClients-trans before (dispatch-SameClients r.method r g'))
        | inr (code, e) ↦ rw (e, guarded) before
      ]

  -- A request to the JSON API changes no registration and no client.
  pub handle_http-SameClients :
      (r : Request) (g : Goctopus S) → SameClients g (handle_http st p cfg t r g).2
  unfolding handle_http
  handle_http-SameClients r g =
      let g' = (allow p cfg r t.now g).1 in
      let before = SameService-SameClients (allow-SameService p cfg r t.now g) in
      elim (Bool-cases (allow p cfg r t.now g).0) [
        | inl e ↦ rw e (SameClients-trans before (guarded-SameClients r g'))
        | inr e ↦ rw e before
      ]

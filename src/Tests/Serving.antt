-- ===== src/Tests/Serving.antt =====
-- The theorems on the registry, the API and the websocket endpoint, at the sample server.
use goctopus.Registry.Removal.{has-remove_client}
use goctopus.Tests.{alice, topic, all_topics, platform, server, config}
use goctopus.Connect.Admission.{is_served, served_keys, compresses, opened, handle_ws-registers}
use goctopus.Connect.{handle_ws, Upgrade, served}
use goctopus.Auth.Backend.{IsAuthorized, authorize_backend_iff, SameService}
use goctopus.Auth.{trim_space, allow, authorize_backend}
use goctopus.Api.Guard.{handle_http_refused}
use goctopus.Api.{handle_http, Moment}
use goctopus.Request.{get_text, Method, Request, status}
use goctopus.Registry.Invariant.{register-IsRegistry, IsRegistry}
use goctopus.Registry.{register, remove_client}
use goctopus.Storage.Memory.Laws.{memory}
use goctopus.Storage.Memory.{MemoryStorage, delete_queue, keys_of, get_keys}
use goctopus.Topics.{key_matches}
use goctopus.Engine.Lookup.{has-clients_for_key}
use goctopus.Engine.{conns_of, clients_for_key, Goctopus}
use goctopus.Config.{origin_allowed}
use goctopus.Prelude.GoMap.{Map, lookup}
use goctopus.Prelude.{
  if◌then◌else◌, decide, Text, codes, has, Distinct, ℕ, ◌≡◌, refl, ◌≢◌, ◌↔◌, ◌⊎◌, true, false, not,
  ◌&&◌, ◌||◌, none, some, [], ◌∷◌, arith, ℕ_discrete, text_key, nat_key,
}

-- A new server that keeps its messages in memory, with two connections.
abbrev empty_server : Goctopus MemoryStorage
empty_server = record server { conns = []; patterns = []; next = 0; storage = [] }

abbrev joined : Goctopus MemoryStorage
joined = register (all_topics ∷ []) true (register (alice ∷ topic ∷ []) false empty_server)

empty_server-IsRegistry : IsRegistry empty_server
unfolding lookup conns_of has
empty_server-IsRegistry = record {
  no_empty = λ k e. cc;
  patterns_known = λ k w h e. h refl;
  patterns_used = λ k h. absurd (h refl);
  own_keys = λ k x h. cc;
}

joined-IsRegistry : IsRegistry joined
joined-IsRegistry =
    register-IsRegistry (all_topics ∷ []) true _
      (register-IsRegistry (alice ∷ topic ∷ []) false empty_server empty_server-IsRegistry)

has-clients_for_key_example :
    ((cid : ℕ)
      → (has cid (clients_for_key platform alice joined.conns joined.patterns) ≡ true) ↔ (
          (k : Text) × ((k ≡ alice) ⊎ (key_matches platform k alice ≡ true))
          × (has cid (conns_of joined.conns k) ≡ true)))
    × Distinct (clients_for_key platform alice joined.conns joined.patterns)
has-clients_for_key_example =
    has-clients_for_key platform alice joined.conns joined.patterns joined-IsRegistry.patterns_known

-- A request to delete the message 97 of the key `a`, without credentials.
abbrev asked : Map Text Text
asked = (codes "key", alice) ∷ (codes "id", alice) ∷ []

abbrev delete_request : Request
delete_request = record {
  method = Method.delete;
  path = [];
  query = asked;
  headers = [];
  basic_auth = none;
  body = none;
  remote_addr = codes "::1";
}

abbrev moment : Moment
moment = record { now = 20; clock = λ id. 20; random_id = some 9 }

not-IsAuthorized : ¬ IsAuthorized config delete_request
not-IsAuthorized e = ground arith

handle_http_refused_example :
    let (response, task, g') = handle_http memory platform config moment delete_request server in
    ((response ≡ status 401) ⊎ (response ≡ status 403) ⊎ (response ≡ status 429))
    × (task ≡ none)
    × SameService server g'
handle_http_refused_example =
    handle_http_refused memory platform config moment delete_request server not-IsAuthorized

authorize_backend_iff_example :
    ((authorize_backend config delete_request server).0 ≡ none) ↔ IsAuthorized config delete_request
authorize_backend_iff_example = authorize_backend_iff config delete_request server

clears_always : (k : Text) (s : MemoryStorage) → (memory.delete_queue k s).0 ≡ true
unfolding delete_queue
clears_always k s = refl

-- The same request without a query.
abbrev clear_request : Request
clear_request = record delete_request { query = [] }

listed_keys : (memory.get_keys server.storage).0 ≡ some (alice ∷ topic ∷ [])
unfolding get_keys keys_of
listed_keys = refl

no_key : get_text (codes "key") clear_request.query ≡ []
unfolding get_text lookup
no_key = refl

no_id : get_text (codes "id") clear_request.query ≡ []
unfolding get_text lookup
no_id = refl

abbrev upgrade : Upgrade
upgrade = record { now = 20; authorized = some (alice ∷ []); handshake = some true }

handle_ws-registers_example :
    let (outcome, g') = handle_ws memory platform config delete_request upgrade joined in
    ((outcome ≡ served (alice ∷ [])) ↔ (
      ((allow platform config delete_request upgrade.now joined).0 ≡ true)
      × (origin_allowed config (get_text (codes "Origin") delete_request.headers) ≡ true)
      × (upgrade.authorized ≡ some (alice ∷ []))
      × (upgrade.handshake ≢ none)))
    × (has 1 (conns_of g'.conns alice) ≡ (
        has 1 (conns_of joined.conns alice)
        || has alice (served_keys outcome) && decide (ℕ_discrete joined.next 1)))
    × (g'.clients 1 ≡ (
        if is_served outcome && decide (ℕ_discrete joined.next 1)
        then opened (served_keys outcome) (compresses upgrade.handshake)
        else joined.clients 1))
handle_ws-registers_example =
    handle_ws-registers memory platform config delete_request upgrade joined (alice ∷ []) alice 1

has-remove_client_example :
    has 1 (conns_of (remove_client 0 joined).conns topic)
    ≡ (has 1 (conns_of joined.conns topic) && not (decide (ℕ_discrete 0 1)))
has-remove_client_example = has-remove_client 0 joined joined-IsRegistry topic 1

-- A no-break space before a letter, and an ideographic space behind it, in UTF-8.
trimmed : trim_space (0xC2 ∷ 0xA0 ∷ b'a' ∷ 0xE3 ∷ 0x80 ∷ 0x80 ∷ []) ≡ b'a' ∷ []
unfolding trim_space
trimmed = refl

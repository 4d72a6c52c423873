-- ===== src/Connect/Admission.antt =====
-- Which upgrades are served, and that the registry stays in order.
use goctopus.Client.{new_client, Client}
use goctopus.Constants.{header_origin}
use goctopus.Auth.Backend.{allow-SameService, count_auth_fail-SameService, SameService}
use goctopus.Registry.Invariant.{register-IsRegistry, has-register, register_clients, IsRegistry}
use goctopus.Prelude.{
  if◌then◌else◌, Bool-cases, Option-cases, decide, Text, has, ℕ, ◌≡◌, ◌≢◌, ◌↔◌, inl, inr, Bool,
  true, false, ◌&&◌, ◌||◌, Option, none, some, List, [], arith, ℕ_discrete, text_key, nat_key,
}
use goctopus.Config.{origin_allowed, Config}
use goctopus.Request.{get_text, Request}
use goctopus.Message.{Platform}
use goctopus.Storage.{Storage}
use goctopus.Auth.{allow, count_auth_fail}
use goctopus.Engine.{store, conns_of, Goctopus}
use goctopus.Connect.{accept, authorize, handle_ws, Upgrade, Connection, served}

abbrev pub is_served : Connection → Bool
is_served (served keys) = true
is_served _ = false

abbrev pub served_keys : Connection → List Text
served_keys (served keys) = keys
served_keys _ = []

-- Whether the handshake negotiated compression.
abbrev pub compresses : Option Bool → Bool
compresses none = false
compresses (some compress) = compress

-- A client to which nothing was written and that has nothing in flight.
abbrev pub opened : List Text → Bool → Client
opened keys compress = record {
  keys = keys;
  compress = compress;
  inflight = [];
  closed = false;
  done = 0;
  written = [];
}

module _ {S : Type 0} (st : Storage S) (p : Platform) (cfg : Config) (r : Request)
    (u : Upgrade) where
  handle_ws-served_iff :
      (g : Goctopus S) (keys : List Text)
      → ((handle_ws st p cfg r u g).0 ≡ served keys) ↔ (
          ((allow p cfg r u.now g).0 ≡ true)
          × (origin_allowed cfg (get_text header_origin r.headers) ≡ true)
          × (u.authorized ≡ some keys)
          × (u.handshake ≢ none))
  unfolding handle_ws
  handle_ws-served_iff g keys = ground arith

  -- A connection that is not served leaves the registry, the clients, the storage and the history
  -- as they were.
  pub handle_ws-SameService :
      (g : Goctopus S)
      → is_served (handle_ws st p cfg r u g).0 ≡ false
      → SameService g (handle_ws st p cfg r u g).1
  unfolding handle_ws
  handle_ws-SameService g not_served = ground (
    arith,
    allow-SameService p cfg r u.now g,
    count_auth_fail-SameService (allow p cfg r u.now g).1,
  )

  accept-registers :
      (keys : List Text) (h : Option Bool) (g : Goctopus S) (k : Text) (x : ℕ)
      → let (outcome, g') = accept st p cfg keys h g in
        (has x (conns_of g'.conns k) ≡ (
          has x (conns_of g.conns k)
          || has k (served_keys outcome) && decide (ℕ_discrete g.next x)))
        × (g'.clients x ≡ (
            if is_served outcome && decide (ℕ_discrete g.next x)
            then opened (served_keys outcome) (compresses h)
            else g.clients x))
  unfolding accept store has new_client
  accept-registers keys none g k x = ground arith
  accept-registers keys (some compress) g k x =
      ground (arith, has-register keys compress k x g, register_clients keys compress g)

  authorize-registers :
      (g : Goctopus S) (k : Text) (x : ℕ)
      → let (outcome, g') = authorize st p cfg u g in
        (has x (conns_of g'.conns k) ≡ (
          has x (conns_of g.conns k)
          || has k (served_keys outcome) && decide (ℕ_discrete g.next x)))
        × (g'.clients x ≡ (
            if is_served outcome && decide (ℕ_discrete g.next x)
            then opened (served_keys outcome) (compresses u.handshake)
            else g.clients x))
  unfolding authorize has count_auth_fail
  authorize-registers g k x = elim (Option-cases u.authorized) [
    | inl e ↦ rw e (ground arith)
    | inr (keys, e) ↦ rw e (accept-registers keys u.handshake g k x)
  ]

  -- A connection is served exactly when the rate limit allows the request, its origin is allowed,
  -- the authorizer gave it keys and the handshake succeeded; its keys are the authorizer's. A
  -- served connection is then added under each of its keys and no other, as a new open client with
  -- these keys, the negotiated compression and nothing in flight; every other connection stands
  -- where it stood, and is as it was.
  pub handle_ws-registers :
      (g : Goctopus S) (keys : List Text) (k : Text) (x : ℕ)
      → let (outcome, g') = handle_ws st p cfg r u g in
        ((outcome ≡ served keys) ↔ (
          ((allow p cfg r u.now g).0 ≡ true)
          × (origin_allowed cfg (get_text header_origin r.headers) ≡ true)
          × (u.authorized ≡ some keys)
          × (u.handshake ≢ none)))
        × (has x (conns_of g'.conns k) ≡ (
            has x (conns_of g.conns k)
            || has k (served_keys outcome) && decide (ℕ_discrete g.next x)))
        × (g'.clients x ≡ (
            if is_served outcome && decide (ℕ_discrete g.next x)
            then opened (served_keys outcome) (compresses u.handshake)
            else g.clients x))
  unfolding handle_ws has
  handle_ws-registers g keys k x =
      let same = allow-SameService p cfg r u.now g in
      let after = authorize-registers (allow p cfg r u.now g).1 k x in
      (handle_ws-served_iff g keys, ground (arith, same, after), ground (arith, same, after))

  allow-IsRegistry : (g : Goctopus S) → IsRegistry g → IsRegistry (allow p cfg r u.now g).1
  allow-IsRegistry g v =
      let same = allow-SameService p cfg r u.now g in
      record {
        no_empty = rw (same.conns) v.no_empty;
        patterns_known = rw (same.conns, same.patterns) v.patterns_known;
        patterns_used = rw (same.conns, same.patterns) v.patterns_used;
        own_keys = rw (same.conns, same.clients, same.next) v.own_keys;
      }

  fail-IsRegistry : (g : Goctopus S) → IsRegistry g → IsRegistry (count_auth_fail g)
  unfolding count_auth_fail
  fail-IsRegistry g v = record {
    no_empty = v.no_empty;
    patterns_known = v.patterns_known;
    patterns_used = v.patterns_used;
    own_keys = v.own_keys;
  }

  accept-IsRegistry :
      (keys : List Text) (handshake : Option Bool) (g : Goctopus S)
      → IsRegistry g
      → IsRegistry (accept st p cfg keys handshake g).1
  unfolding accept
  accept-IsRegistry keys none g v = v
  accept-IsRegistry keys (some compress) g v = register-IsRegistry keys compress g v

  authorize-IsRegistry : (g : Goctopus S) → IsRegistry g → IsRegistry (authorize st p cfg u g).1
  unfolding authorize
  authorize-IsRegistry g v = elim (Option-cases u.authorized) [
    | inl e ↦ rw (e, authorize) (fail-IsRegistry g v)
    | inr (keys, e) ↦ rw (e, authorize) (accept-IsRegistry keys u.handshake g v)
  ]

  -- Every upgrade, served or not, keeps the registry's invariant.
  pub handle_ws-IsRegistry :
      (g : Goctopus S) → IsRegistry g → IsRegistry (handle_ws st p cfg r u g).1
  unfolding handle_ws
  handle_ws-IsRegistry g v = elim (Bool-cases (allow p cfg r u.now g).0) [
    | inl e ↦ elim (Bool-cases (origin_allowed cfg (get_text header_origin r.headers))) [
      | inl o ↦ rw (e, o) (authorize-IsRegistry (allow p cfg r u.now g).1 (allow-IsRegistry g v))
      | inr o ↦ rw (e, o) (allow-IsRegistry g v)
    ]
    | inr e ↦ rw e (allow-IsRegistry g v)
  ]

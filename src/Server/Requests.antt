-- ===== src/Server/Requests.antt =====
-- What the JSON API takes out of the queues.

use goctopus.Constants.{query_key}
use goctopus.Prelude.{
  Bool-cases, Option-cases, Text, ℕ, ◌≡◌, refl, ap, ◌⊎◌, inl, inr, true, List, arith,
}
use goctopus.Api.{
  handle_history, handle_get, handle_post, dispatch, guarded, handle_http, Moment,
  accept as accept_post,
}
use goctopus.Auth.Backend.{IsAuthorized, authorize_backend_iff, allow-SameService}
use goctopus.Auth.{allow, count_auth_fail, compare_credentials, authorize_backend}
use goctopus.Request.{get_text, Method, Request}
use goctopus.Engine.{Goctopus}
use goctopus.Config.{Config}
use goctopus.Storage.Queue.{holds}
use goctopus.Storage.{Storage, IsStorage}
use goctopus.Message.{Message, Platform, Outcome, ReadError, ok, err, panic}

module _ {S : Type 0} (st : Storage S) (view : S → Text → List Message) (law : IsStorage st view)
    (p : Platform) (cfg : Config) (t : Moment) where
  handle_get_view :
      (r : Request) (g : Goctopus S) (j : Text)
      → view (handle_get st p cfg t r g).1.storage j ≡ view g.storage j
  unfolding handle_get handle_history
  handle_get_view r g j = ground (
    arith,
    law.get_queue_view (get_text query_key r.query) j g.storage,
    law.get_keys_view j g.storage,
  )

  accept-storage :
      (o : Outcome ReadError Message) (g : Goctopus S)
      → (accept_post st p cfg t o g).2.storage ≡ g.storage
  unfolding accept_post
  accept-storage (err e) g = refl
  accept-storage panic g = refl
  accept-storage (ok m) g = refl

  dispatch_view :
      (m : Method) (r : Request) (g : Goctopus S) (j : Text)
      → (m ≡ Method.delete) ⊎ (view (dispatch st p cfg t m r g).2.storage j ≡ view g.storage j)
  unfolding dispatch handle_post
  dispatch_view Method.post r g j = inr (ap (λ s. view s j) (accept-storage _ g))
  dispatch_view Method.get r g j = inr (handle_get_view r g j)
  dispatch_view Method.delete r g j = inl refl
  dispatch_view Method.other r g j = inr refl

  authorize_backend-storage :
      (r : Request) (g : Goctopus S) → (authorize_backend cfg r g).1.storage ≡ g.storage
  unfolding authorize_backend compare_credentials count_auth_fail
  authorize_backend-storage r g = ground arith

  -- A request that is no authorized DELETE takes no message out of any queue.
  pub handle_http-holds :
      (r : Request) (key : Text) (id : ℕ) (g : Goctopus S)
      → holds id (view g.storage key) ≡ true
      → (holds id (view (handle_http st p cfg t r g).2.storage key) ≡ true)
        ⊎ ((r.method ≡ Method.delete) × IsAuthorized cfg r)
  unfolding handle_http guarded
  handle_http-holds r key id g h =
      let g' = (allow p cfg r t.now g).1 in
      let first = (allow-SameService p cfg r t.now g).storage in
      let second = authorize_backend-storage r g' in
      let kept : holds id (view (authorize_backend cfg r g').1.storage key) ≡ true =
        rw (second, first) h in
      elim (Bool-cases (allow p cfg r t.now g).0) [
        | inr e ↦ inl (rw (e, first) h)
        | inl e ↦ elim (Option-cases (authorize_backend cfg r g').0) [
          | inr (code, c) ↦ inl (rw (e, c, guarded) kept)
          | inl c ↦
              let authorized = (authorize_backend_iff cfg r g').0 c in
              elim (dispatch_view r.method r (authorize_backend cfg r g').1 key) [
                | inl d ↦ inr (d, authorized)
                | inr same ↦ inl (rw (e, c, guarded, same) kept)
              ]
        ]
      ]

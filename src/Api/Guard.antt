-- ===== src/Api/Guard.antt =====
-- No request that is not authorized reaches a queue.
use goctopus.Prelude.{Bool-cases, Option-cases, ℕ, ◌≡◌, refl, ◌⊎◌, inl, inr, none, arith, text_key}
use goctopus.Message.{Platform}
use goctopus.Config.{Config}
use goctopus.Request.{Request, status}
use goctopus.Storage.{Storage}
use goctopus.Engine.{Goctopus}
use goctopus.Auth.{allow, count_auth_fail, authorize_backend}
use goctopus.Auth.Backend.{
  IsAuthorized, authorize_backend_iff, authorize_backend_refused, allow-SameService,
  count_auth_fail-SameService, SameService,
}
use goctopus.Api.{guarded, handle_http, Moment}

module _ {S : Type 0} (st : Storage S) (p : Platform) (cfg : Config) (t : Moment)
    (r : Request) where
  guarded_refused :
      (g : Goctopus S)
      → ¬ IsAuthorized cfg r
      → (code : ℕ) × (((code ≡ 401) ⊎ (code ≡ 403)))
        × (guarded st p cfg t r g ≡ (status code, none, count_auth_fail g))
  unfolding guarded
  guarded_refused g bad = elim (Option-cases (authorize_backend cfg r g).0) [
    | inl e ↦ absurd (bad ((authorize_backend_iff cfg r g).0 e))
    | inr (code, e) ↦
        let (which, same) = authorize_backend_refused cfg r g code e in
        (code, which, rw (e, guarded, same))
  ]

  -- A request that is not authorized, whatever its method, is answered 401 or 403, or 429 by the
  -- rate limit; it schedules nothing, and changes no queue, no history and no connection.
  pub handle_http_refused :
      (g : Goctopus S)
      → ¬ IsAuthorized cfg r
      → let (response, task, g') = handle_http st p cfg t r g in
        ((response ≡ status 401) ⊎ (response ≡ status 403) ⊎ (response ≡ status 429))
        × (task ≡ none)
        × SameService g g'
  unfolding handle_http
  handle_http_refused g bad = elim (Bool-cases (allow p cfg r t.now g).0) [
    | inl e ↦
        let (code, which, same) = guarded_refused (allow p cfg r t.now g).1 bad in
        rw (e, same)
          (
            ground arith,
            refl,
            ground (
              arith,
              allow-SameService p cfg r t.now g,
              count_auth_fail-SameService (allow p cfg r t.now g).1,
            ),
          )
    | inr e ↦ rw e (inr (inr refl), refl, allow-SameService p cfg r t.now g)
  ]

-- ===== src/Auth/Backend.antt =====
-- The backend API fails closed.
use goctopus.Prelude.{Text, ℕ, ◌≡◌, ◌≢◌, ◌↔◌, ◌⊎◌, true, Option, none, some, [], arith, text_key}
use goctopus.Config.{Config}
use goctopus.Request.{Request}
use goctopus.Engine.{Goctopus}
use goctopus.RateLimit.{RateLimiter}
use goctopus.Message.{Platform}
use goctopus.Auth.{client_ip, allow_reply, allow, count_auth_fail, authorize_backend}

-- The server demands no credentials, or has both a login and a password and the request has them.
abbrev pub IsAuthorized : Config → Request → Type 0
IsAuthorized cfg r =
    (cfg.insecure_no_auth ≡ true)
    ⊎ ((cfg.login ≢ []) × (cfg.password ≢ []) × (r.basic_auth ≡ some (cfg.login, cfg.password)))

module _ {S : Type 0} (cfg : Config) (r : Request) (g : Goctopus S) where
  -- A request is let through exactly when it is authorized.
  pub authorize_backend_iff : ((authorize_backend cfg r g).0 ≡ none) ↔ IsAuthorized cfg r
  unfolding authorize_backend
  authorize_backend_iff = ground arith

  -- A request that is refused is answered 401 or 403, and counted; it changes nothing else.
  pub authorize_backend_refused :
      (code : ℕ)
      → (authorize_backend cfg r g).0 ≡ some code
      → ((code ≡ 401) ⊎ (code ≡ 403)) × ((authorize_backend cfg r g).1 ≡ count_auth_fail g)
  unfolding authorize_backend
  authorize_backend_refused code h = ground arith

-- What the rate limit and the count of failures leave alone.
pub record SameService {S : Type 0} (g g' : Goctopus S) : Type 0 where
  pub conns : g'.conns ≡ g.conns
  pub patterns : g'.patterns ≡ g.patterns
  pub clients : g'.clients ≡ g.clients
  pub next : g'.next ≡ g.next
  pub storage : g'.storage ≡ g.storage
  pub history : g'.history ≡ g.history

allow_reply-SameService :
    {S : Type 0} (limiter : Option RateLimiter) (ip : Text) (now : ℕ) (g : Goctopus S)
    → SameService g (allow_reply limiter ip now g).1
unfolding allow_reply
allow_reply-SameService none ip now g = ground arith
allow_reply-SameService (some rl) ip now g = ground arith

pub allow-SameService :
    {S : Type 0} (p : Platform) (cfg : Config) (r : Request) (now : ℕ) (g : Goctopus S)
    → SameService g (allow p cfg r now g).1
unfolding allow allow_reply client_ip
allow-SameService p cfg r now g = allow_reply-SameService g.limiter _ now g

pub count_auth_fail-SameService : {S : Type 0} (g : Goctopus S) → SameService g (count_auth_fail g)
unfolding count_auth_fail
count_auth_fail-SameService g = ground arith

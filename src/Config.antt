-- ===== src/Config.antt =====
-- src/config.go: the settings, and `originAllowed`.
use goctopus.Prelude.{
  if◌then◌else◌, decide, ℤ, Text, codes, Text-discrete, has, has-cons, ℕ, ◌≡◌, refl, ◌↔◌, ◌⊎◌, Bool,
  true, false, not, ◌&&◌, ◌||◌, List, [], ◌∷◌, arith, text_key,
}
use goctopus.Message.{is_empty}

-- A float, as the exact number that it is.
pub record Fraction : Type 0 where
  pub numerator : ℤ
  pub denominator : ℕ

-- Durations are in nanoseconds; `rate_limit` is in events a second.
pub record Config : Type 0 where
  pub host : Text
  pub port : Text
  pub workers : ℤ
  pub default_expire : Text
  pub verbose : Bool
  pub log_json : Bool
  pub login : Text
  pub password : Text
  pub insecure_no_auth : Bool
  pub storage_engine : Text
  pub authorizer_engine : Text
  pub auth_url : Text
  pub auth_timeout : ℤ
  pub auth_cache_ttl : ℤ
  pub redis_url : Text
  pub redis_key_ttl : ℤ
  pub sweep_interval : ℤ
  pub ping_interval : ℤ
  pub read_timeout : ℤ
  pub write_timeout : ℤ
  pub history_size : ℤ
  pub history_ttl : ℤ
  pub reconcile_interval : ℤ
  pub max_message_bytes : ℕ
  pub rate_limit : Fraction
  pub rate_burst : ℤ
  pub trust_proxy_headers : Bool
  pub tls_cert : Text
  pub tls_key : Text
  pub compression : Bool
  pub allowed_origins : List Text

-- The loop of `originAllowed`.
unfoldable pub listed : Text → List Text → Bool
listed origin [] = false
listed origin (a ∷ origins) =
    decide (Text-discrete a (codes "*")) || decide (Text-discrete a origin) || listed origin origins

unfoldable pub origin_allowed : Config → Text → Bool
unfolding listed
origin_allowed c origin =
    if is_empty origin || is_empty c.allowed_origins then true else listed origin c.allowed_origins

unfoldable pub tls_enabled : Config → Bool
tls_enabled c = not (is_empty c.tls_cert) && not (is_empty c.tls_key)

or_regroup : (a b c d : Bool) → (a || b || (c || d)) ≡ ((b || c) || (a || d))
or_regroup a b c d = ground arith

listed-has :
    (origin : Text) (origins : List Text)
    → listed origin origins ≡ (has origin origins || has (codes "*") origins)
unfolding listed has
listed-has origin [] = refl
listed-has origin (a ∷ origins) =
    rw (has-cons origin a origins, has-cons (codes "*") a origins, listed-has origin origins)
      (or_regroup (decide (Text-discrete a (codes "*"))) (decide (Text-discrete a origin))
        (has origin origins) (has (codes "*") origins))

-- Only an origin that the list names, or any origin if the list names `*`, may open a connection;
-- a request that carries no origin, or a server that has no list, is not restricted.
pub origin_allowed_iff :
    (c : Config) (origin : Text)
    → (origin_allowed c origin ≡ true) ↔ (
        (origin ≡ [])
        ⊎ (c.allowed_origins ≡ [])
        ⊎ (has origin c.allowed_origins ≡ true)
        ⊎ (has (codes "*") c.allowed_origins ≡ true))
unfolding origin_allowed
origin_allowed_iff c origin = ground (arith, listed-has origin c.allowed_origins)

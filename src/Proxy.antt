-- ===== src/Proxy.antt =====
-- src/proxy_authorizer.go: the keys of a connection, asked of a backend, with a cache. The hash
-- of hash/fnv, and what the HTTP request to the backend gives, are parameters.
pub mod Cache
use goctopus.Config.{Config}
use goctopus.Request.{get_text, Request}
use goctopus.Message.{is_empty}
use goctopus.Prelude.GoMap.{Map, lookup, insert}
use goctopus.Prelude.{
  ◌==◌, if◌then◌else◌, ◌+ℤ◌, ltb_ℤ, ℤ, pos, Text, codes, ℕ, ◌+◌, ◌%◌, Bool, ◌&&◌, Option, none,
  some, List, [], ◌∷◌, ◌++◌, text_key, nat_key,
}

pub record AuthCacheEntry : Type 0 where
  pub keys : List Text
  pub exp : ℤ

pub record ProxyAuthorizer : Type 0 where
  pub cache_ttl : ℤ
  pub cache : Map ℕ AuthCacheEntry
  pub puts : ℕ

-- `parses` stands for `url.Parse`.
unfoldable pub init_proxy : (Text → Bool) → Config → Option ProxyAuthorizer
init_proxy parses cfg =
    if parses cfg.auth_url
    then some (record { cache_ttl = cfg.auth_cache_ttl; cache = []; puts = 0 })
    else none

-- The loop of `Export`.
unfoldable pub non_empty : List Text → List Text
non_empty [] = []
non_empty (k ∷ keys) = let rest = non_empty keys in if is_empty k then rest else k ∷ rest

unfoldable pub export : Text → Text → List Text
unfolding non_empty
export email organization = non_empty (email ∷ organization ∷ [])

-- The credentials of a request, hashed; `none` where it has neither.
unfoldable pub cache_key : (Text → ℕ) → Request → Option ℕ
cache_key hash r =
    let cookie = get_text (codes "Cookie") r.headers in
    let authz = get_text (codes "Authorization") r.headers in
    if is_empty cookie && is_empty authz then none else some (hash (cookie ++ 0 ∷ authz))

-- `now.After(e.exp)`
unfoldable pub is_stale : ℕ → AuthCacheEntry → Bool
is_stale now e = ltb_ℤ e.exp (pos now)

unfoldable pub cache_get : Option ℕ → ℕ → ProxyAuthorizer → Option (List Text)
unfolding is_stale
cache_get none now a = none
cache_get (some k) now a = elim (lookup k a.cache) [
  | none ↦ none
  | some e ↦ if is_stale now e then none else some e.keys
]

-- The loop of `cachePut`.
unfoldable pub evict : ℕ → Map ℕ AuthCacheEntry → Map ℕ AuthCacheEntry
unfolding is_stale
evict now [] = []
evict now ((k, e) ∷ rest) =
    let others = evict now rest in if is_stale now e then others else (k, e) ∷ others

-- `later` is the second reading of the clock.
unfoldable pub cache_put : Option ℕ → List Text → ℕ → ℕ → ProxyAuthorizer → ProxyAuthorizer
unfolding evict ◌+ℤ◌
cache_put none keys now later a = a
cache_put (some k) keys now later a =
    let cached = insert k (record { keys = keys; exp = pos now +ℤ a.cache_ttl }) a.cache in
    record a {
      cache = if (a.puts + 1) % 256 == 0 then evict later cached else cached;
      puts = a.puts + 1;
    }

-- The answer of the backend: the email and the organization, or an error.
unfoldable pub ask :
    Option ℕ → Option (Text × Text) → ℕ → ℕ → ProxyAuthorizer → Option (List Text) × ProxyAuthorizer
unfolding cache_put export
ask k none now later a = (none, a)
ask k (some (email, organization)) now later a =
    let keys = export email organization in
    if is_empty keys
    then (none, a)
    else (some keys, (if ltb_ℤ (pos 0) a.cache_ttl then cache_put k keys now later a else a))

-- `first` is the time at which the cache is read.
unfoldable pub authorize_proxy :
    Option ℕ
    → Option (Text × Text)
    → ℕ
    → ℕ
    → ℕ
    → ProxyAuthorizer
    → Option (List Text) × ProxyAuthorizer
unfolding cache_get ask
authorize_proxy k answer first now later a =
    if ltb_ℤ (pos 0) a.cache_ttl
    then elim (cache_get k first a) [ some keys ↦ (some keys, a) | none ↦ ask k answer now later a ]
    else ask k answer now later a

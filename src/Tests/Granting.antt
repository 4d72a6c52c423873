-- ===== src/Tests/Granting.antt =====
-- The theorem on the cache of the proxy authorizer, at a sample answer.
use goctopus.Tests.{alice, topic}
use goctopus.Proxy.Cache.{cached_keys, authorize_proxy_again}
use goctopus.Proxy.{non_empty, export, cache_get, ask, authorize_proxy, ProxyAuthorizer}
use goctopus.Prelude.GoMap.{lookup}
use goctopus.Prelude.{
  ◌+ℤ◌, ◌≤ℤ◌, pos, Text, Distinct, ◌≡◌, refl, none, some, List, [], ◌∷◌, arith, text_key, nat_key,
}

abbrev authorizer : ProxyAuthorizer
authorizer = record { cache_ttl = pos 60; cache = []; puts = 255 }

abbrev granted_keys : List Text
granted_keys = alice ∷ topic ∷ []

no_entries : Distinct (cached_keys authorizer.cache)
unfolding cached_keys
no_entries = tt

not_cached : cache_get (some 5) 10 authorizer ≡ none
unfolding cache_get lookup
not_cached = refl

asked_keys :
    (authorize_proxy (some 5) (some (alice, topic)) 10 11 12 authorizer).0 ≡ some granted_keys
unfolding authorize_proxy cache_get lookup ask export non_empty
asked_keys = refl

still_alive : pos 70 ≤ℤ pos 11 +ℤ authorizer.cache_ttl
unfolding ◌+ℤ◌
still_alive = ground arith

authorize_proxy_again_example :
    let a' = (authorize_proxy (some 5) (some (alice, topic)) 10 11 12 authorizer).1 in
    authorize_proxy (some 5) none 70 71 72 a' ≡ (some granted_keys, a')
authorize_proxy_again_example =
    authorize_proxy_again 5 (some (alice, topic)) none 10 11 12 70 71 72 granted_keys authorizer
      no_entries (omega arith) not_cached asked_keys (omega arith) still_alive

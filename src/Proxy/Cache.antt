-- ===== src/Proxy/Cache.antt =====
-- What the cache of the proxy authorizer gives back.
use goctopus.Proxy.{
  is_stale, cache_get, evict, cache_put, ask, authorize_proxy, AuthCacheEntry, ProxyAuthorizer,
}
use goctopus.Prelude.GoMap.{Map, lookup, insert, lookup-insert}
use goctopus.Prelude.{
  if◌then◌else◌, decide, ◌+ℤ◌, ◌≤ℤ◌, ◌<ℤ◌, pos, Text, has, Distinct, ℕ, ◌≤◌, ◌≡◌, refl, sym, ap,
  ◌∙◌, false, ◌||◌, Option, none, some, List, [], ◌∷◌, arith, ℕ_discrete, text_key, nat_key,
}

-- Keys of the cache, each once.
unfoldable pub cached_keys : Map ℕ AuthCacheEntry → List ℕ
cached_keys [] = []
cached_keys ((k, e) ∷ rest) = k ∷ cached_keys rest

has-cached_keys-insert :
    (k j : ℕ) (e : AuthCacheEntry) (m : Map ℕ AuthCacheEntry)
    → has j (cached_keys (insert k e m)) ≡ (decide (ℕ_discrete k j) || has j (cached_keys m))
unfolding cached_keys has insert
has-cached_keys-insert k j e [] = ground arith
has-cached_keys-insert k j e ((i, c) ∷ m) = ground (arith, has-cached_keys-insert k j e m)

insert-Distinct :
    (k : ℕ) (e : AuthCacheEntry) (m : Map ℕ AuthCacheEntry)
    → Distinct (cached_keys m)
    → Distinct (cached_keys (insert k e m))
unfolding cached_keys insert has
insert-Distinct k e [] d = ground arith
insert-Distinct k e ((i, c) ∷ m) d =
    ground (arith, insert-Distinct k e m, has-cached_keys-insert k i e m)

lookup_absent :
    (k : ℕ) (m : Map ℕ AuthCacheEntry) → has k (cached_keys m) ≡ false → lookup k m ≡ none
unfolding cached_keys has lookup
lookup_absent k [] h = refl
lookup_absent k ((i, c) ∷ m) h = ground (arith, lookup_absent k m)

has-cached_keys-evict :
    (now k : ℕ) (m : Map ℕ AuthCacheEntry)
    → has k (cached_keys m) ≡ false
    → has k (cached_keys (evict now m)) ≡ false
unfolding cached_keys has evict
has-cached_keys-evict now k [] h = refl
has-cached_keys-evict now k ((i, c) ∷ m) h = ground (arith, has-cached_keys-evict now k m)

abbrev unless_stale : ℕ → Option AuthCacheEntry → Option AuthCacheEntry
unless_stale now none = none
unless_stale now (some e) = if is_stale now e then none else some e

lookup-evict :
    (now k : ℕ) (m : Map ℕ AuthCacheEntry)
    → Distinct (cached_keys m)
    → lookup k (evict now m) ≡ unless_stale now (lookup k m)
unfolding cached_keys lookup evict
lookup-evict now k [] d = refl
lookup-evict now k ((i, c) ∷ m) d =
    ground
      (arith, lookup-evict now k m, lookup_absent i (evict now m), has-cached_keys-evict now i m)

-- What is put is found until it expires, however many entries the eviction drops.
cache_get-put :
    (k now later next : ℕ) (keys : List Text) (a : ProxyAuthorizer)
    → Distinct (cached_keys a.cache)
    → later ≤ next
    → pos next ≤ℤ pos now +ℤ a.cache_ttl
    → cache_get (some k) next (cache_put (some k) keys now later a) ≡ some keys
unfolding cache_get cache_put is_stale
cache_get-put k now later next keys a d le alive =
    let e : AuthCacheEntry = record { keys = keys; exp = pos now +ℤ a.cache_ttl } in
    ground (
      arith,
      lookup-insert k k e a.cache,
      lookup-evict later k (insert k e a.cache),
      insert-Distinct k e a.cache d,
    )

cache_put-cache_ttl :
    (k : Option ℕ) (keys : List Text) (now later : ℕ) (a : ProxyAuthorizer)
    → (cache_put k keys now later a).cache_ttl ≡ a.cache_ttl
unfolding cache_put
cache_put-cache_ttl none keys now later a = refl
cache_put-cache_ttl (some k) keys now later a = refl

-- An answer of the backend that grants keys is put into the cache.
ask_granted :
    (k : Option ℕ) (answer : Option (Text × Text)) (now later : ℕ) (keys : List Text)
    (a : ProxyAuthorizer)
    → pos 0 <ℤ a.cache_ttl
    → (ask k answer now later a).0 ≡ some keys
    → (ask k answer now later a).1 ≡ cache_put k keys now later a
unfolding ask
ask_granted k none now later keys a ttl h = cc
ask_granted k (some (email, organization)) now later keys a ttl h = ground arith

authorize_proxy_cached :
    (k : Option ℕ) (answer : Option (Text × Text)) (first now later : ℕ) (keys : List Text)
    (a : ProxyAuthorizer)
    → pos 0 <ℤ a.cache_ttl
    → cache_get k first a ≡ some keys
    → authorize_proxy k answer first now later a ≡ (some keys, a)
unfolding authorize_proxy
authorize_proxy_cached k answer first now later keys a ttl h = ground arith

authorize_proxy_asked :
    (k : Option ℕ) (answer : Option (Text × Text)) (first now later : ℕ) (a : ProxyAuthorizer)
    → cache_get k first a ≡ none
    → authorize_proxy k answer first now later a ≡ ask k answer now later a
unfolding authorize_proxy
authorize_proxy_asked k answer first now later a h = ground arith

-- With a cache, keys that the backend granted to a credential are given to it again, without asking
-- and whatever the backend would say now, until the lifetime of the entry is over; the eviction
-- that a put may start does not shorten it. The cache must have each hash once, and the clock not
-- run back.
pub authorize_proxy_again :
    (k : ℕ) (answer other : Option (Text × Text)) (first now later next next' next'' : ℕ)
    (keys : List Text) (a : ProxyAuthorizer)
    → Distinct (cached_keys a.cache)
    → pos 0 <ℤ a.cache_ttl
    → cache_get (some k) first a ≡ none
    → (authorize_proxy (some k) answer first now later a).0 ≡ some keys
    → later ≤ next
    → pos next ≤ℤ pos now +ℤ a.cache_ttl
    → let a' = (authorize_proxy (some k) answer first now later a).1 in
      authorize_proxy (some k) other next next' next'' a' ≡ (some keys, a')
authorize_proxy_again k answer other first now later next next' next'' keys a d ttl miss granted le
      alive =
    let asked = authorize_proxy_asked (some k) answer first now later a miss in
    let put : (authorize_proxy (some k) answer first now later a).1
        ≡ cache_put (some k) keys now later a =
      ap (λ r. r.1) asked
      ∙ ask_granted (some k) answer now later keys a ttl (ap (λ r. r.0) (sym asked) ∙ granted) in
    rw put (
      authorize_proxy_cached (some k) other next next' next'' keys
        (cache_put (some k) keys now later a)
        (rw (cache_put-cache_ttl (some k) keys now later a) ttl)
        (cache_get-put k now later next keys a d le alive))

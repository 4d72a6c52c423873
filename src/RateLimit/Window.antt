-- ===== src/RateLimit/Window.antt =====
-- How many requests of a client `Allow` admits in a stretch of time.
use goctopus.RateLimit.Worth.{
  worth, allow-IsLimiter, worth_gain, worth_le, new-IsLimiter, IsLimiter,
}
use goctopus.RateLimit.Purge.{Timed}
use goctopus.RateLimit.{new_rate_limiter, allow, RateLimiter}
use goctopus.Prelude.{
  if◌then◌else◌, decide, ℤ, Text, Text-discrete, ℕ, ◌+◌, ◌*◌, ◌≤◌, ◌&&◌, List, [], ◌∷◌, arith,
  text_key,
}

-- The number of requests of one client that `Allow` admits, and the limiter behind all of them.
unfoldable pub granted : Text → RateLimiter → List (Text × ℕ) → ℕ
granted key rl [] = 0
granted key rl ((k, t) ∷ requests) =
    let (allowed, rl') = allow k t rl in
    (if decide (Text-discrete k key) && allowed then 1 else 0) + granted key rl' requests

unfoldable pub after : RateLimiter → List (Text × ℕ) → RateLimiter
after rl [] = rl
after rl ((k, t) ∷ requests) = after (allow k t rl).1 requests

abbrev pub last_time : ℕ → List (Text × ℕ) → ℕ
last_time t [] = t
last_time t ((k, x) ∷ requests) = last_time x requests

module _ (rate token burst : ℕ) where
  after-IsLimiter :
      (now : ℕ) (requests : List (Text × ℕ)) (rl : RateLimiter)
      → Timed now requests
      → IsLimiter rate token burst now rl
      → IsLimiter rate token burst (last_time now requests) (after rl requests)
  unfolding after
  after-IsLimiter now [] rl timed v = v
  after-IsLimiter now ((k, t) ∷ requests) rl timed v =
      after-IsLimiter t requests (allow k t rl).1 timed.1
        (allow-IsLimiter rate token burst k k now t rl timed.0 v).0

  granted_from :
      (key : Text) (now start : ℕ) (requests : List (Text × ℕ)) (rl : RateLimiter)
      → now ≤ start
      → Timed start requests
      → IsLimiter rate token burst now rl
      → granted key rl requests * token + start * rate
        ≤ worth rl key start + last_time start requests * rate
  unfolding granted
  granted_from key now start [] rl h timed v = omega arith
  granted_from key now start ((k, t) ∷ requests) rl h timed v =
      let (v', cost) = allow-IsLimiter rate token burst k key now t rl (omega (arith, timed.0)) v in
      omega (
        arith,
        cost,
        worth_gain rate token burst key now start t rl h timed.0 v,
        granted_from key t t requests (allow k t rl).1 (omega arith) timed.1 v',
      )

-- In any stretch of time a client gets at most a full bucket and what flows in meanwhile. Take a
-- new limiter, which serves requests of any clients at times that do not fall, and of these a
-- stretch that begins at or after the time `start`, behind any others. The tokens of the requests
-- of one client that `Allow` admits in the stretch are at most the burst and the rate times the
-- time from `start` to the last request of the stretch.
pub granted-le :
    (rate token : ℕ) (burst : ℤ) (begin start : ℕ) (before stretch : List (Text × ℕ)) (key : Text)
    → Timed begin before
    → last_time begin before ≤ start
    → Timed start stretch
    → let rl = new_rate_limiter rate token burst in
      granted key (after rl before) stretch * token + start * rate
      ≤ rl.burst + last_time start stretch * rate
granted-le rate token burst begin start before stretch key timed le timed' =
    let rl = new_rate_limiter rate token burst in
    let now = last_time begin before in
    let v =
      after-IsLimiter rate token rl.burst begin before rl timed
        (new-IsLimiter rate token burst begin) in
    omega (
      arith,
      granted_from rate token rl.burst key now start stretch (after rl before) le timed' v,
      worth_le rate token rl.burst key now start (after rl before) le v,
    )

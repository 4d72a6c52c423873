-- ===== src/RateLimit.antt =====
-- src/ratelimit.go: a token bucket for each client address. Allow holds the mutex but for reading
-- the clock. The floats are replaced by exact numbers: a token is `token` units, and the rate is a
-- number of units for each nanosecond, so that rate = rate * 10 ^ 9 / token tokens a second.
pub mod Window
pub mod Purge
pub mod Buckets
pub mod Worth
use goctopus.Prelude.{
  ◌==◌, if◌then◌else◌, pos_part, sub_ℕ, ◌+ℤ◌, ◌-ℤ◌, ltb_ℤ, leb_ℤ, ℤ, pos, Text, ℕ, ◌+◌, ◌*◌, ◌%◌,
  Bool, true, false, Option, none, some, [], ◌∷◌, text_key,
}
use goctopus.Prelude.GoMap.{Map, lookup, insert}

pub record Bucket : Type 0 where
  pub tokens : ℤ
  pub last : ℕ

pub record RateLimiter : Type 0 where
  pub rate : ℕ
  pub token : ℕ
  pub burst : ℕ
  pub buckets : Map Text Bucket
  pub ops : ℕ

abbrev pub purge_every : ℕ
purge_every = 1024

-- `burst` counts tokens; it is at least one.
unfoldable pub new_rate_limiter : ℕ → ℕ → ℤ → RateLimiter
new_rate_limiter rate token burst = record {
  rate = rate;
  token = token;
  burst = (if ltb_ℤ burst (pos 1) then 1 else pos_part burst) * token;
  buckets = [];
  ops = 0;
}

-- elapsed * rate, where the time that went by may be negative.
unfoldable pub earned : ℕ → ℕ → ℕ → ℤ
earned rate last now = sub_ℕ (now * rate) (last * rate)

-- The tokens of a bucket at a later time, not yet bounded.
unfoldable pub refilled : RateLimiter → Bucket → ℕ → ℤ
unfolding earned ◌+ℤ◌
refilled rl b now = b.tokens +ℤ earned rl.rate b.last now

-- The bucket of a client when it asks: a new one is full.
unfoldable pub current : RateLimiter → Option Bucket → ℕ → Bucket
current rl none now = record { tokens = pos rl.burst; last = now }
current rl (some b) now =
    let t = refilled rl b now in
    record { tokens = if ltb_ℤ (pos rl.burst) t then pos rl.burst else t; last = now }

-- The end of `Allow`.
unfoldable pub spend : RateLimiter → Bucket → Bool × Bucket
unfolding ◌-ℤ◌
spend rl b =
    if leb_ℤ (pos rl.token) b.tokens
    then (true, record b { tokens = b.tokens -ℤ pos rl.token })
    else (false, b)

-- The loop of `purge`.
unfoldable pub purge_buckets : RateLimiter → ℕ → Map Text Bucket → Map Text Bucket
purge_buckets rl now [] = []
purge_buckets rl now ((k, b) ∷ rest) =
    let kept = purge_buckets rl now rest in
    if leb_ℤ (pos rl.burst) (refilled rl b now) then kept else (k, b) ∷ kept

-- The part of `Allow` behind the purge.
unfoldable pub admit : Text → ℕ → RateLimiter → Bool × RateLimiter
unfolding current spend
admit key now rl =
    let (allowed, b) = spend rl (current rl (lookup key rl.buckets) now) in
    (allowed, record rl { buckets = insert key b rl.buckets })

unfoldable pub allow : Text → ℕ → RateLimiter → Bool × RateLimiter
unfolding admit purge_buckets
allow key now rl =
    let counted = record rl { ops = rl.ops + 1 } in
    admit key now (
      if counted.ops % purge_every == 0
      then record counted { buckets = purge_buckets counted now counted.buckets }
      else counted)

-- ===== src/RateLimit/Purge.antt =====
-- Purging the full buckets changes no decision.
use goctopus.RateLimit.Buckets.{
  keys, insert-Distinct, purge-Distinct, unless_full, lookup-purge, current-unless_full,
}
use goctopus.Prelude.{
  ◌==◌, if◌then◌else◌, Bool-cases, ℤ, Text, Text-discrete, Distinct, ℕ, ◌+◌, ◌%◌, ◌≤◌, ◌≡◌, refl,
  ap, ◌∙◌, inl, inr, ite, if_pos, if_neg, Bool, Option, none, some, List, [], ◌∷◌, arith, text_key,
}
use goctopus.Prelude.GoMap.{lookup, insert, lookup-insert}
use goctopus.RateLimit.{
  purge_every, new_rate_limiter, refilled, current, spend, purge_buckets, admit, allow, Bucket,
  RateLimiter,
}

-- Two limiters with the same settings whose buckets are worth the same from a time on.
record Agrees (now : ℕ) (a b : RateLimiter) : Type 0 where
  rate : a.rate ≡ b.rate
  token : a.token ≡ b.token
  burst : a.burst ≡ b.burst
  distinct : Distinct (keys a.buckets)
  worth :
      (k : Text) (t : ℕ)
      → now ≤ t
      → current a (lookup k a.buckets) t ≡ current b (lookup k b.buckets) t

-- The limiter without its purge.
unfoldable pub serve :
    (Text → ℕ → RateLimiter → Bool × RateLimiter) → RateLimiter → List (Text × ℕ) → List Bool
serve ask rl [] = []
serve ask rl ((k, t) ∷ requests) =
    let (allowed, rl') = ask k t rl in allowed ∷ serve ask rl' requests

abbrev pub Timed : ℕ → List (Text × ℕ) → Type 0
Timed now [] = Unit {0}
Timed now ((k, t) ∷ requests) = (now ≤ t) × Timed t requests

pub current_same :
    (a b : RateLimiter) (o : Option Bucket) (t : ℕ)
    → a.rate ≡ b.rate
    → a.burst ≡ b.burst
    → current a o t ≡ current b o t
unfolding current refilled
current_same a b none t r u = rw u
current_same a b (some c) t r u = rw (r, u)

spend_same : (a b : RateLimiter) (c : Bucket) → a.token ≡ b.token → spend a c ≡ spend b c
unfolding spend
spend_same a b c e = rw e

-- The state that `admit` leaves, and its answer.
reply : RateLimiter → Text → ℕ → Bool × Bucket
reply rl k t = spend rl (current rl (lookup k rl.buckets) t)

admit-reply :
    (rl : RateLimiter) (k : Text) (t : ℕ)
    → admit k t rl
      ≡ ((reply rl k t).0, record rl { buckets = insert k (reply rl k t).1 rl.buckets })
unfolding admit reply
admit-reply rl k t = refl

reply_same :
    (k : Text) (t now : ℕ) (a b : RateLimiter)
    → now ≤ t
    → Agrees now a b
    → reply a k t ≡ reply b k t
unfolding reply
reply_same k t now a b le v = rw (v.worth k t le) (spend_same a b _ v.token)

insert-Agrees :
    (k : Text) (c : Bucket) (now t : ℕ) (a b : RateLimiter)
    → now ≤ t
    → Agrees now a b
    → Agrees t
        (record a { buckets = insert k c a.buckets })
        (record b { buckets = insert k c b.buckets })
insert-Agrees k c now t a b le v = record {
  rate = v.rate;
  token = v.token;
  burst = v.burst;
  distinct = insert-Distinct k c a.buckets v.distinct;
  worth = λ j t' le'.
      rw (lookup-insert k j c a.buckets, lookup-insert k j c b.buckets)
        (worth_insert j t' (omega arith));
}
  where
    a' : RateLimiter
    a' = record a { buckets = insert k c a.buckets }

    b' : RateLimiter
    b' = record b { buckets = insert k c b.buckets }

    worth_insert :
        (j : Text) (t' : ℕ)
        → now ≤ t'
        → current a' (ite (Text-discrete k j) (some c) (lookup j a.buckets)) t'
          ≡ current b' (ite (Text-discrete k j) (some c) (lookup j b.buckets)) t'
    worth_insert j t' h = elim (Text-discrete k j) [
      | yes e ↦ rw (if_pos _ e, if_pos _ e) (current_same a' b' (some c) t' v.rate v.burst)
      | no e ↦
          rw (if_neg _ e, if_neg _ e)
            (current_same a' a (lookup j a.buckets) t' refl refl
              ∙ v.worth j t' h
              ∙ current_same b b' (lookup j b.buckets) t' refl refl)
    ]

admit-Agrees :
    (k : Text) (t now : ℕ) (a b : RateLimiter)
    → now ≤ t
    → Agrees now a b
    → ((admit k t a).0 ≡ (admit k t b).0) × Agrees t (admit k t a).1 (admit k t b).1
admit-Agrees k t now a b le v =
    let same = reply_same k t now a b le v in
    rw (admit-reply a k t, admit-reply b k t, same)
      (refl, insert-Agrees k (reply b k t).1 now t a b le v)

-- What `allow` does before `admit`.
unfoldable pub prepared : ℕ → RateLimiter → RateLimiter
prepared t rl =
    let counted = record rl { ops = rl.ops + 1 } in
    if counted.ops % purge_every == 0
    then record counted { buckets = purge_buckets counted t counted.buckets }
    else counted

pub allow-prepared :
    (k : Text) (t : ℕ) (rl : RateLimiter) → allow k t rl ≡ admit k t (prepared t rl)
unfolding allow prepared
allow-prepared k t rl = refl

purged-Agrees :
    (t now : ℕ) (a b : RateLimiter) (n : ℕ)
    → now ≤ t
    → Agrees now a b
    → let counted = record a { ops = n } in
      Agrees t (record counted { buckets = purge_buckets counted t a.buckets }) b
purged-Agrees t now a b n le v = record {
  rate = v.rate;
  token = v.token;
  burst = v.burst;
  distinct = purge-Distinct counted t a.buckets v.distinct;
  worth = λ j t' le'. rw (lookup-purge counted t j a.buckets v.distinct) (
      current_same _ counted (unless_full counted t (lookup j a.buckets)) t' refl refl
      ∙ current-unless_full counted t (lookup j a.buckets) t' le'
      ∙ current_same counted a (lookup j a.buckets) t' refl refl
      ∙ v.worth j t' (omega arith));
}
  where
    counted : RateLimiter
    counted = record a { ops = n }

later-Agrees :
    (t now : ℕ) (a b : RateLimiter) (n : ℕ)
    → now ≤ t
    → Agrees now a b
    → Agrees t (record a { ops = n }) b
later-Agrees t now a b n le v = record {
  rate = v.rate;
  token = v.token;
  burst = v.burst;
  distinct = v.distinct;
  worth =
      λ j t' le'. current_same _ a (lookup j a.buckets) t' refl refl ∙ v.worth j t' (omega arith);
}

prepared-Agrees :
    (t now : ℕ) (a b : RateLimiter) → now ≤ t → Agrees now a b → Agrees t (prepared t a) b
unfolding prepared
prepared-Agrees t now a b le v = elim (Bool-cases ((a.ops + 1) % purge_every == 0)) [
  | inl e ↦ rw e (purged-Agrees t now a b (a.ops + 1) le v)
  | inr e ↦ rw e (later-Agrees t now a b (a.ops + 1) le v)
]

serve-Agrees :
    (now : ℕ) (requests : List (Text × ℕ)) (a b : RateLimiter)
    → Timed now requests
    → Agrees now a b
    → serve allow a requests ≡ serve admit b requests
unfolding serve
serve-Agrees now [] a b timed v = refl
serve-Agrees now ((k, t) ∷ requests) a b timed v =
    let ready = prepared-Agrees t now a b timed.0 v in
    let (same, next) = admit-Agrees k t t (prepared t a) b (omega arith) ready in
    rw (allow-prepared k t a, same)
      (ap (◌∷◌ (admit k t b).0) (serve-Agrees t requests _ (admit k t b).1 timed.1 next))

-- Dropping the full buckets, once in 1024 requests, never changes an answer: for any requests at
-- times that do not fall, a new limiter answers as one that keeps every bucket for ever.
pub serve-new :
    (rate token : ℕ) (burst : ℤ) (now : ℕ) (requests : List (Text × ℕ))
    → Timed now requests
    → serve allow (new_rate_limiter rate token burst) requests
      ≡ serve admit (new_rate_limiter rate token burst) requests
unfolding new_rate_limiter keys
serve-new rate token burst now requests timed =
    serve-Agrees now requests _ _ timed
      (record { rate = refl; token = refl; burst = refl; distinct = tt; worth = λ k t le. refl })

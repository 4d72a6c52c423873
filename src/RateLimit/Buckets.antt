-- ===== src/RateLimit/Buckets.antt =====
-- What the purge leaves in the map of buckets, what a full bucket is worth, and what time and
-- requests do to a bucket.
use goctopus.Prelude.{
  if◌then◌else◌, decide, pos_part, neg_part, leb_ℤ, ◌≤ℤ◌, ℤ, pos, negsuc, Text, Text-discrete, has,
  Distinct, ℕ, ◌+◌, ◌-◌, ◌*◌, ◌≤◌, ◌≡◌, refl, Bool, false, ◌||◌, Option, none, some, List, [], ◌∷◌,
  arith, text_key,
}
use goctopus.Prelude.GoMap.{Map, lookup, insert}
use goctopus.RateLimit.{refilled, current, spend, purge_buckets, Bucket, RateLimiter}

-- The keys of a map, which has each once.
unfoldable pub keys : Map Text Bucket → List Text
keys [] = []
keys ((k, b) ∷ rest) = k ∷ keys rest

pub has-keys-insert :
    (k j : Text) (b : Bucket) (m : Map Text Bucket)
    → has j (keys (insert k b m)) ≡ (decide (Text-discrete k j) || has j (keys m))
unfolding keys has insert
has-keys-insert k j b [] = ground arith
has-keys-insert k j b ((i, c) ∷ m) = ground (arith, has-keys-insert k j b m)

pub insert-Distinct :
    (k : Text) (b : Bucket) (m : Map Text Bucket)
    → Distinct (keys m)
    → Distinct (keys (insert k b m))
unfolding keys insert has
insert-Distinct k b [] d = ground arith
insert-Distinct k b ((i, c) ∷ m) d = ground (arith, insert-Distinct k b m, has-keys-insert k i b m)

lookup_absent : (k : Text) (m : Map Text Bucket) → has k (keys m) ≡ false → lookup k m ≡ none
unfolding keys has lookup
lookup_absent k [] h = refl
lookup_absent k ((i, c) ∷ m) h = ground (arith, lookup_absent k m)

module _ (rl : RateLimiter) (now : ℕ) where
  has-keys-purge :
      (k : Text) (m : Map Text Bucket)
      → has k (keys m) ≡ false
      → has k (keys (purge_buckets rl now m)) ≡ false
  unfolding keys has purge_buckets
  has-keys-purge k [] h = refl
  has-keys-purge k ((i, c) ∷ m) h = ground (arith, has-keys-purge k m)

  pub purge-Distinct :
      (m : Map Text Bucket) → Distinct (keys m) → Distinct (keys (purge_buckets rl now m))
  unfolding keys purge_buckets
  purge-Distinct [] d = tt
  purge-Distinct ((i, c) ∷ m) d = ground (arith, purge-Distinct m d.1, has-keys-purge i m)

  abbrev pub is_full : Bucket → Bool
  is_full b = leb_ℤ (pos rl.burst) (refilled rl b now)

  abbrev pub unless_full : Option Bucket → Option Bucket
  unless_full none = none
  unless_full (some b) = if is_full b then none else some b

  pub lookup-purge :
      (k : Text) (m : Map Text Bucket)
      → Distinct (keys m)
      → lookup k (purge_buckets rl now m) ≡ unless_full (lookup k m)
  unfolding keys lookup purge_buckets
  lookup-purge k [] d = refl
  lookup-purge k ((i, c) ∷ m) d =
      ground (arith, lookup-purge k m, lookup_absent i (purge_buckets rl now m), has-keys-purge i m)

  refilled_parts :
      (b : Bucket) (t : ℕ)
      → pos_part (refilled rl b t) + neg_part b.tokens + b.last * rl.rate
        ≡ neg_part (refilled rl b t) + pos_part b.tokens + t * rl.rate
  unfolding refilled
  refilled_parts b t = ground arith

  earns_more : (t t' : ℕ) → t ≤ t' → t * rl.rate ≤ t' * rl.rate
  earns_more t t' h = grind arith

  full_later :
      (b : Bucket) (later : ℕ)
      → now ≤ later
      → pos rl.burst ≤ℤ refilled rl b now
      → pos rl.burst ≤ℤ refilled rl b later
  full_later b later le full =
      omega (arith, refilled_parts b now, refilled_parts b later, earns_more now later le)

  -- A full bucket is as good as none, now and later.
  pub current-unless_full :
      (b : Option Bucket) (later : ℕ)
      → now ≤ later
      → current rl (unless_full b) later ≡ current rl b later
  unfolding current
  current-unless_full none later le = refl
  current-unless_full (some b) later le = ground (arith, full_later b later le)

-- A bucket between none and a full one, last touched at a time gone by.
abbrev pub IsBucket : ℕ → ℕ → Bucket → Type 0
IsBucket burst now b = (pos 0 ≤ℤ b.tokens) × (b.tokens ≤ℤ pos burst) × (b.last ≤ now)

pub current-IsBucket :
    (rl : RateLimiter) (o : Option Bucket) (now t : ℕ)
    → now ≤ t
    → ((b : Bucket) → o ≡ some b → IsBucket rl.burst now b)
    → IsBucket rl.burst t (current rl o t)
unfolding current refilled
current-IsBucket rl none now t h v = (omega arith, omega arith, omega arith)
current-IsBucket rl (some b) now t h v = let b_ok = v b refl in grind arith

pub spend-IsBucket :
    (rl : RateLimiter) (now : ℕ) (b : Bucket)
    → IsBucket rl.burst now b
    → IsBucket rl.burst now (spend rl b).1
unfolding spend
spend-IsBucket rl now b v = ground arith

-- What one request takes out of a bucket.
pub spend_cost :
    (rl : RateLimiter) (b : Bucket)
    → pos 0 ≤ℤ b.tokens
    → (if (spend rl b).0 then 1 else 0) * rl.token + pos_part (spend rl b).1.tokens
      ≡ pos_part b.tokens
unfolding spend
spend_cost rl b v = ground arith

pub spend_last : (rl : RateLimiter) (b : Bucket) → (spend rl b).1.last ≡ b.last
unfolding spend
spend_last rl b = ground arith

pub current_last : (rl : RateLimiter) (o : Option Bucket) (now : ℕ) → (current rl o now).last ≡ now
unfolding current
current_last rl none now = refl
current_last rl (some b) now = refl

earned_mono : (rate t t' : ℕ) → t ≤ t' → t * rate ≤ t' * rate
earned_mono rate t t' h = grind arith

refilled_lem :
    (rl : RateLimiter) (b : Bucket) (t : ℕ)
    → pos 0 ≤ℤ b.tokens
    → b.last ≤ t
    → refilled rl b t ≡ pos (pos_part b.tokens + (t * rl.rate - b.last * rl.rate))
unfolding refilled
refilled_lem rl b t v h = let more = earned_mono rl.rate b.last t h in ground arith

-- What waiting puts into a bucket.
pub current_gain :
    (rl : RateLimiter) (o : Option Bucket) (start t : ℕ)
    → start ≤ t
    → ((b : Bucket) → o ≡ some b → IsBucket rl.burst start b)
    → pos_part (current rl o t).tokens + start * rl.rate
      ≤ pos_part (current rl o start).tokens + t * rl.rate
unfolding current
current_gain rl none start t h v = omega (arith, earned_mono rl.rate start t h)
current_gain rl (some b) start t h v =
    let (lower, upper, last) = v b refl in
    rw (refilled_lem rl b t lower (omega arith), refilled_lem rl b start lower last)
      (ground (arith, earned_mono rl.rate start t h, earned_mono rl.rate b.last start last))

-- At the time of its last request a bucket is worth its tokens.
pub current_now :
    (rl : RateLimiter) (b : Bucket) (now : ℕ)
    → b.last ≡ now
    → IsBucket rl.burst now b
    → pos_part (current rl (some b) now).tokens ≡ pos_part b.tokens
unfolding current refilled
current_now rl b now e v = ground arith

pub pos_part_le : (n : ℕ) (z : ℤ) → pos 0 ≤ℤ z → z ≤ℤ pos n → pos_part z ≤ n
pos_part_le n (pos m) lower upper = omega arith
pos_part_le n (negsuc m) lower upper = omega arith

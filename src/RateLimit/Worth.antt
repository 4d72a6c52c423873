-- ===== src/RateLimit/Worth.antt =====
-- The tokens that a client has at a time, and what a request of `Allow` does to them.
use goctopus.RateLimit.Buckets.{
  keys, insert-Distinct, purge-Distinct, unless_full, lookup-purge, current-unless_full, IsBucket,
  current-IsBucket, spend-IsBucket, spend_cost, spend_last, current_last, current_gain, current_now,
  pos_part_le,
}
use goctopus.Prelude.GoMap.{lookup, insert, lookup-insert}
use goctopus.RateLimit.Purge.{current_same, prepared, allow-prepared}
use goctopus.RateLimit.{
  purge_every, new_rate_limiter, current, spend, purge_buckets, admit, allow, Bucket, RateLimiter,
}
use goctopus.Prelude.{
  ◌==◌, if◌then◌else◌, Bool-cases, decide, pos_part, ℤ, Text, Text-discrete, Distinct, ℕ, ◌+◌, ◌*◌,
  ◌%◌, ◌≤◌, ◌≡◌, refl, ap, subst, ◌∙◌, inl, inr, ◌&&◌, some, arith, text_key,
}

-- A limiter with these settings whose buckets are in order at a time.
pub record IsLimiter (rate token burst now : ℕ) (rl : RateLimiter) : Type 0 where
  rate_is : rl.rate ≡ rate
  token_is : rl.token ≡ token
  burst_is : rl.burst ≡ burst
  distinct : Distinct (keys rl.buckets)
  held : (k : Text) (b : Bucket) → lookup k rl.buckets ≡ some b → IsBucket rl.burst now b

-- The tokens that a client has at a time.
pub worth : RateLimiter → Text → ℕ → ℕ
worth rl key t = pos_part (current rl (lookup key rl.buckets) t).tokens

module _ (rate token burst : ℕ) where
  purged-IsLimiter :
      (now t : ℕ) (rl : RateLimiter)
      → now ≤ t
      → IsLimiter rate token burst now rl
      → IsLimiter rate token burst t (record rl { buckets = purge_buckets rl t rl.buckets })
        × ((key : Text) (t' : ℕ)
            → t ≤ t'
            → worth (record rl { buckets = purge_buckets rl t rl.buckets }) key t'
              ≡ worth rl key t')
  unfolding worth
  purged-IsLimiter now t rl h v = (
    record {
      rate_is = v.rate_is;
      token_is = v.token_is;
      burst_is = v.burst_is;
      distinct = purge-Distinct rl t rl.buckets v.distinct;
      held = λ k b e. ground (arith, lookup-purge rl t k rl.buckets v.distinct, v.held k b);
    },
    λ key t' le. rw (lookup-purge rl t key rl.buckets v.distinct) (
        ap (λ b. pos_part b.tokens)
          (current_same (record rl { buckets = purge_buckets rl t rl.buckets }) rl
              (unless_full rl t (lookup key rl.buckets)) t' refl refl
            ∙ current-unless_full rl t (lookup key rl.buckets) t' le)),
  )

  counted-IsLimiter :
      (now t : ℕ) (rl : RateLimiter)
      → now ≤ t
      → IsLimiter rate token burst now rl
      → let rl' = record rl { ops = rl.ops + 1 } in
        IsLimiter rate token burst t rl'
        × ((key : Text) (t' : ℕ) → t ≤ t' → worth rl' key t' ≡ worth rl key t')
  unfolding worth
  counted-IsLimiter now t rl h v = (
    record {
      rate_is = v.rate_is;
      token_is = v.token_is;
      burst_is = v.burst_is;
      distinct = v.distinct;
      held = λ k b e. ground (arith, v.held k b);
    },
    λ key t' le.
        ap (λ b. pos_part b.tokens)
          (current_same (record rl { ops = rl.ops + 1 }) rl (lookup key rl.buckets) t' refl refl),
  )

  prepared-IsLimiter :
      (now t : ℕ) (rl : RateLimiter)
      → now ≤ t
      → IsLimiter rate token burst now rl
      → IsLimiter rate token burst t (prepared t rl)
        × ((key : Text) → worth (prepared t rl) key t ≡ worth rl key t)
  unfolding prepared
  prepared-IsLimiter now t rl h v =
      let (v', same) = counted-IsLimiter now t rl h v in
      elim (Bool-cases ((rl.ops + 1) % purge_every == 0)) [
        | inl e ↦
            let (w, same') =
              purged-IsLimiter t t (record rl { ops = rl.ops + 1 }) (omega arith) v' in
            rw e (w, λ key. same' key t (omega arith) ∙ same key t (omega arith))
        | inr e ↦ rw e (v', λ key. same key t (omega arith))
      ]

  -- What a client has left after a request of its own, and of another's.
  worth-insert :
      (k key : Text) (c : Bucket) (t : ℕ) (rl : RateLimiter)
      → worth (record rl { buckets = insert k c rl.buckets }) key t ≡ (
          if decide (Text-discrete k key)
          then pos_part (current rl (some c) t).tokens
          else worth rl key t)
  unfolding worth
  worth-insert k key c t rl =
      ap (λ b. pos_part b.tokens)
        (current_same (record rl { buckets = insert k c rl.buckets }) rl
          (lookup key (insert k c rl.buckets)) t refl refl)
      ∙ ground (arith, lookup-insert k key c rl.buckets)

  admit-IsLimiter :
      (k key : Text) (t : ℕ) (rl : RateLimiter)
      → IsLimiter rate token burst t rl
      → let (allowed, rl') = admit k t rl in
        IsLimiter rate token burst t rl'
        × ((if decide (Text-discrete k key) && allowed then 1 else 0) * token + worth rl' key t
            ≡ worth rl key t)
  unfolding admit worth
  admit-IsLimiter k key t rl v =
      let o = lookup k rl.buckets in
      let fits : (b : Bucket) → o ≡ some b → IsBucket rl.burst t b =
        λ b e. ground (arith, v.burst_is, v.held k b e) in
      let b = current rl o t in
      let b_ok = current-IsBucket rl o t t (omega arith) fits in
      let spent = (spend rl b).1 in
      let spent_ok = spend-IsBucket rl t b b_ok in
      (
        record {
          rate_is = v.rate_is;
          token_is = v.token_is;
          burst_is = v.burst_is;
          distinct = insert-Distinct k spent rl.buckets v.distinct;
          held = λ j c e. ground (arith, lookup-insert k j spent rl.buckets, spent_ok, v.held j c);
        },
        rw (worth-insert k key spent t rl) (
            ground (
              arith,
              spend_cost rl b b_ok.0,
              current_now rl spent t (spend_last rl b ∙ current_last rl o t) spent_ok,
            )),
      )

  pub allow-IsLimiter :
      (k key : Text) (now t : ℕ) (rl : RateLimiter)
      → now ≤ t
      → IsLimiter rate token burst now rl
      → let (allowed, rl') = allow k t rl in
        IsLimiter rate token burst t rl'
        × ((if decide (Text-discrete k key) && allowed then 1 else 0) * token + worth rl' key t
            ≡ worth rl key t)
  allow-IsLimiter k key now t rl h v =
      let (ready, same) = prepared-IsLimiter now t rl h v in
      let (v', cost) = admit-IsLimiter k key t (prepared t rl) ready in
      rw (allow-prepared k t rl) (v', cost ∙ same key)

  pub worth_gain :
      (key : Text) (now start t : ℕ) (rl : RateLimiter)
      → now ≤ start
      → start ≤ t
      → IsLimiter rate token burst now rl
      → worth rl key t + start * rate ≤ worth rl key start + t * rate
  unfolding worth
  worth_gain key now start t rl h le v =
      subst (λ r. worth rl key t + start * r ≤ worth rl key start + t * r) v.rate_is
        (current_gain rl (lookup key rl.buckets) start t le
          (λ b e. ground (arith, v.burst_is, v.held key b e)))

  pub worth_le :
      (key : Text) (now start : ℕ) (rl : RateLimiter)
      → now ≤ start
      → IsLimiter rate token burst now rl
      → worth rl key start ≤ burst
  unfolding worth
  worth_le key now start rl h v =
      let fits =
        current-IsBucket rl (lookup key rl.buckets) now start h
          (λ b e. ground (arith, v.burst_is, v.held key b e)) in
      omega (arith, v.burst_is, pos_part_le rl.burst _ fits.0 fits.1)

pub new-IsLimiter :
    (rate token : ℕ) (burst : ℤ) (now : ℕ)
    → IsLimiter rate token
        (new_rate_limiter rate token burst).burst
        now
        (new_rate_limiter rate token burst)
unfolding new_rate_limiter keys lookup
new-IsLimiter rate token burst now = record {
  rate_is = refl;
  token_is = refl;
  burst_is = refl;
  distinct = tt;
  held = λ k b e. absurd (ground arith);
}

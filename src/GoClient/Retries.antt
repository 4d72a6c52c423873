-- ===== src/GoClient/Retries.antt =====
-- How often and how late the Go client tries again.

use goctopus.GoClient.{Subscriber}
use goctopus.GoClient.Session.{
  hand_on, read_messages, session, next_backoff, attempt, is_exhausted, back_off, run_turns, run,
  Received, Session, Turn, Running,
}
use goctopus.Prelude.{
  Bool-cases, Option-cases, pos, ℕ, zero, suc, ◌+◌, ◌≤◌, ◌<◌, ◌≡◌, refl, inl, inr, Bool, false,
  some, List, [], ◌∷◌, arith, dec_lt,
}

read_messages-fails : (reads : List Received) (s : Session) → (read_messages reads s).0 ≡ false
unfolding read_messages
read_messages-fails [] s = refl
read_messages-fails (i ∷ reads) s = elim (Option-cases i.message) [
  | inl e ↦ rw (e, read_messages) (read_messages-fails reads s)
  | inr ((id, payload), e) ↦
      rw (e, read_messages) (ground (arith, read_messages-fails reads (hand_on id payload s)))
]

session-fails :
    (dials : Bool) (reads : List Received) (s : Session) → (session dials reads s).0 ≡ false
unfolding session
session-fails dials reads s = ground (arith, read_messages-fails reads s)

abbrev pub AllBelow : ℕ → List ℕ → Type 0
AllBelow bound [] = Unit
AllBelow bound (d ∷ delays) = (d ≤ bound) × AllBelow bound delays

-- The state in front of a turn.
record IsSteady (n bound : ℕ) (r : Running) : Type 0 where
  counted : r.sessions ≡ r.retries
  few : r.retries ≤ n
  bounded : r.backoff ≤ bound
  delayed : AllBelow bound r.delays

-- Neither the context nor a sleep ends early.
abbrev pub IsUndisturbed : (ℕ → Turn) → Type 0
IsUndisturbed turns = (k : ℕ) → ((turns k).context_done ≡ false) × ((turns k).cancelled ≡ false)

module _ (min_backoff max_backoff n bound : ℕ) (random : ℕ → ℕ)
    (in_range : (m : ℕ) → 0 < m → random m < m) (some_retries : 0 < n)
    (le : max_backoff ≤ bound) where
  attempt-IsSteady :
      (turn : Turn) (r : Running)
      → IsSteady n bound r
      → ((attempt min_backoff max_backoff (pos n) random turn r).backoff ≡ r.backoff)
        × ((attempt min_backoff max_backoff (pos n) random turn r).retries ≡ r.retries)
  unfolding attempt
  attempt-IsSteady turn r v = ground (arith, session-fails turn.dials turn.reads r.current)

  delay_le : (b : ℕ) → b ≤ bound → random (b + 1) ≤ bound
  delay_le b h = omega (arith, in_range (b + 1) (omega arith))

  back_off-IsSteady :
      (turn : Turn) (r : Running)
      → IsSteady n bound r
      → r.retries < n
      → IsSteady n bound (
          back_off min_backoff max_backoff
            (pos n)
            random
            (attempt min_backoff max_backoff (pos n) random turn r))
  unfolding back_off attempt next_backoff
  back_off-IsSteady turn r v h =
      let (b, t) = attempt-IsSteady turn r v in
      record {
        counted = omega (arith, v.counted, t);
        few = omega (arith, t);
        bounded = ground (arith, v.bounded, b);
        delayed = (rw b (delay_le r.backoff v.bounded), v.delayed);
      }

  run_turns_lem :
      (fuel : ℕ) (turns : ℕ → Turn) (r : Running)
      → n + 1 ≤ fuel + r.retries
      → IsSteady n bound r
      → (r' : Running) × (run_turns min_backoff max_backoff (pos n) random fuel turns r ≡ some r')
        × (r'.sessions ≤ n + 1)
        × (IsUndisturbed turns → r'.sessions ≡ n + 1)
        × AllBelow bound r'.delays
  unfolding run_turns is_exhausted
  run_turns_lem zero turns r enough v = absurd (omega (arith, v.few))
  run_turns_lem (suc fuel) turns r enough v =
      let turn = turns zero in
      let r1 = attempt min_backoff max_backoff (pos n) random turn r in
      let (b, t) = attempt-IsSteady turn r v in
      elim (Bool-cases turn.context_done) [
        | inl e ↦ (
          r,
          ground arith,
          omega (arith, v.counted, v.few),
          λ u. absurd (ground (arith, e, (u 0).0)),
          v.delayed,
        )
        | inr e ↦ elim (dec_lt r.retries n) [
          | no h ↦ (
            r1,
            ground (arith, e, t),
            omega (arith, v.counted, v.few),
            (λ u. omega (arith, v.counted, v.few)),
            v.delayed,
          )
          | yes h ↦ elim (Bool-cases turn.cancelled) [
            | inl e' ↦ (
              record r1 { retries = r1.retries + 1; delays = random (r1.backoff + 1) ∷ r1.delays },
              ground (arith, e, t, e'),
              omega (arith, v.counted, h),
              (λ u. absurd (ground (arith, e', (u 0).1))),
              (rw b (delay_le r.backoff v.bounded), v.delayed),
            )
            | inr e' ↦
                let (r', ran, s, exact, d) =
                  run_turns_lem fuel (λ k. turns (suc k))
                    (back_off min_backoff max_backoff (pos n) random r1) (ground (arith, t))
                    (back_off-IsSteady turn r v h) in
                (r', ground (arith, e, t, e', ran), s, (λ u. exact λ k. u (suc k)), d)
          ]
        ]
      ]

  -- With a positive number of retries, and random numbers within their bounds, `Run` returns: `n +
  -- 1` turns of its loop are enough for `MaxRetries = n`. It starts at most `n + 1` sessions, even
  -- where sessions receive messages in between, and no sleep is longer than the greater of
  -- `MinBackoff` and `MaxBackoff`.
  pub run_ends :
      (fuel : ℕ) (turns : ℕ → Turn) (c : Subscriber)
      → min_backoff ≤ bound
      → n + 1 ≤ fuel
      → (r : Running) × (run min_backoff max_backoff (pos n) random fuel turns c ≡ some r)
        × (r.sessions ≤ n + 1)
        × AllBelow bound r.delays
  unfolding run
  run_ends fuel turns c le_bound enough =
      let (r, ran, few, exact, delays) =
        run_turns_lem fuel turns _ (omega arith)
          (record { counted = refl; few = omega arith; bounded = le_bound; delayed = tt }) in
      (r, ran, few, delays)

  -- If nothing cancels it, it starts exactly `n + 1` sessions.
  pub run_undisturbed :
      (fuel : ℕ) (turns : ℕ → Turn) (c : Subscriber)
      → min_backoff ≤ bound
      → n + 1 ≤ fuel
      → IsUndisturbed turns
      → (r : Running) × (run min_backoff max_backoff (pos n) random fuel turns c ≡ some r)
        × (r.sessions ≡ n + 1)
  unfolding run
  run_undisturbed fuel turns c le_bound enough u =
      let (r, ran, few, exact, delays) =
        run_turns_lem fuel turns _ (omega arith)
          (record { counted = refl; few = omega arith; bounded = le_bound; delayed = tt }) in
      (r, ran, exact u)

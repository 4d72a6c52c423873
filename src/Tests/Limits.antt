-- ===== src/Tests/Limits.antt =====
-- The theorems on the rate limit and the history, at sample values.
use goctopus.Prelude.GoMap.{lookup}
use goctopus.Tests.{alice, topic, hello, old}
use goctopus.History.Retention.{fresh, InOrder, stored, stored-add, get-fresh}
use goctopus.History.{items_of, add, get, HistItem, HistoryStore}
use goctopus.RateLimit.Purge.{serve, serve-new}
use goctopus.RateLimit.Window.{granted, after, last_time, granted-le}
use goctopus.RateLimit.{new_rate_limiter, admit, allow}
use goctopus.Prelude.{
  if◌then◌else◌, decide, length, pos_part, pos, Text, Text-discrete, ◌+◌, ◌*◌, ◌≤◌, min, ◌≡◌, refl,
  some, List, [], ◌∷◌, ◌++◌, map, arith, ℕ_discrete, text_key, nat_key,
}

-- A client that asks twice, and others; the stretch begins at the time 5.
granted-le_example :
    let rl = new_rate_limiter 2 10 (pos 1) in
    granted alice (after rl ((alice, 0) ∷ (topic, 1) ∷ [])) ((alice, 6) ∷ (topic, 7) ∷ []) * 10
      + 5 * 2
    ≤ rl.burst + last_time 5 ((alice, 6) ∷ (topic, 7) ∷ []) * 2
granted-le_example =
    granted-le 2 10 (pos 1) 0 5 ((alice, 0) ∷ (topic, 1) ∷ []) ((alice, 6) ∷ (topic, 7) ∷ []) alice
      (omega arith, (omega arith, tt)) (omega arith) (omega arith, (omega arith, tt))

serve-new_example :
    serve allow (new_rate_limiter 2 10 (pos 1)) ((alice, 0) ∷ (topic, 1) ∷ (alice, 6) ∷ [])
    ≡ serve admit (new_rate_limiter 2 10 (pos 1)) ((alice, 0) ∷ (topic, 1) ∷ (alice, 6) ∷ [])
serve-new_example =
    serve-new 2 10 (pos 1) 0 ((alice, 0) ∷ (topic, 1) ∷ (alice, 6) ∷ [])
      (omega arith, (omega arith, (omega arith, tt)))

-- A history of two messages of `a`, of which one is aged at the time 70.
abbrev past : HistoryStore
past = record {
  size = pos 2;
  ttl = pos 30;
  by_key = (alice, record { m = old; at = 10 } ∷ record { m = hello; at = 50 } ∷ []) ∷ [];
}

past_items : items_of past alice ≡ record { m = old; at = 10 } ∷ record { m = hello; at = 50 } ∷ []
unfolding items_of lookup Text-discrete ℕ_discrete
past_items = refl

past-InOrder : InOrder 0 (items_of past alice)
past-InOrder = rw past_items (omega arith, (omega arith, tt))

-- What the history has of `a` at the time 70, with one more message.
abbrev younger : List HistItem
younger = fresh past.ttl 70 (items_of past alice) ++ record { m = hello; at = 70 } ∷ []

stored-add_example :
    ((dropped : List HistItem) × (dropped ++ stored (add alice hello 70 (some past)) alice
        ≡ younger))
    × (length (stored (add alice hello 70 (some past)) alice)
        ≡ min (pos_part past.size) (length younger))
    × ((j : Text)
        → stored (add alice hello 70 (some past)) j ≡ (
            if decide (Text-discrete alice j)
            then stored (add alice hello 70 (some past)) alice
            else items_of past j))
stored-add_example = stored-add alice hello 70 0 past (omega arith) (omega arith) past-InOrder

get-fresh_example :
    (get alice 70 (some past)).0 ≡ map (λ x. x.m) (fresh past.ttl 70 (items_of past alice))
get-fresh_example = get-fresh alice 70 0 past (omega arith) (omega arith) past-InOrder

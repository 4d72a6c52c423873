-- ===== src/GoClient/Window.antt =====
-- The set and the order of the ids that the Go client knows.
use goctopus.GoClient.{
  new_subscriber, forget_oldest, bound_seen, add_seen, mark_seen, mark_all, Subscriber,
}
use goctopus.Prelude.GoMap.{lookup, insert, lookup-insert, lookup-delete}
use goctopus.Prelude.{
  Bool-cases, Option-cases, decide, length, ◌+ℤ◌, ltb_ℤ, ◌≤ℤ◌, pos, Text, Text-discrete, has,
  Distinct, ◌+◌, ◌≡◌, refl, ◌≢◌, ◌↔◌, inl, inr, true, false, ◌||◌, none, List, [], ◌∷◌, ◌++◌, arith,
  text_key,
}

-- The set and the order hold the same ids, each once, and no more of them than the limit.
pub record IsWindow (c : Subscriber) : Type 0 where
  pub known : (id : Text) → (lookup id c.seen ≢ none) ↔ (has id c.seen_order ≡ true)
  pub distinct : Distinct c.seen_order
  pub bounded : pos (length c.seen_order) ≤ℤ c.dedupe_limit

pub has-snoc :
    (id x : Text) (xs : List Text)
    → has id (xs ++ x ∷ []) ≡ (has id xs || decide (Text-discrete x id))
unfolding has
has-snoc id x [] = ground arith
has-snoc id x (y ∷ xs) = ground (arith, has-snoc id x xs)

snoc-Distinct :
    (x : Text) (xs : List Text) → has x xs ≡ false → Distinct xs → Distinct (xs ++ x ∷ [])
unfolding has
snoc-Distinct x [] h d = ground arith
snoc-Distinct x (y ∷ xs) h d = ground (arith, snoc-Distinct x xs, has-snoc y x xs)

pub length-snoc : (x : Text) (xs : List Text) → length (xs ++ x ∷ []) ≡ length xs + 1
length-snoc x [] = refl
length-snoc x (y ∷ xs) = omega (arith, length-snoc x xs)

-- The client after the oldest id is gone.
forget_oldest-IsWindow :
    (order : List Text) (c : Subscriber)
    → ((id : Text) → (lookup id c.seen ≢ none) ↔ (has id order ≡ true))
    → Distinct order
    → pos (length order) ≤ℤ c.dedupe_limit +ℤ pos 1
    → pos 1 ≤ℤ pos (length order)
    → IsWindow (forget_oldest order c)
unfolding forget_oldest has ◌+ℤ◌
forget_oldest-IsWindow [] c known d le ge = absurd (omega (arith, ge))
forget_oldest-IsWindow (oldest ∷ rest) c known d le ge = record {
  known = λ id. ground (arith, known id, lookup-delete oldest id c.seen, d.0);
  distinct = d.1;
  bounded = ground arith;
}

bound_seen-IsWindow :
    (c : Subscriber)
    → ((id : Text) → (lookup id c.seen ≢ none) ↔ (has id c.seen_order ≡ true))
    → Distinct c.seen_order
    → pos (length c.seen_order) ≤ℤ c.dedupe_limit +ℤ pos 1
    → pos 1 ≤ℤ pos (length c.seen_order)
    → IsWindow (bound_seen c)
unfolding bound_seen
bound_seen-IsWindow c known d le ge =
    elim (Bool-cases (ltb_ℤ c.dedupe_limit (pos (length c.seen_order)))) [
      | inl e ↦ rw e (forget_oldest-IsWindow c.seen_order c known d le ge)
      | inr e ↦ rw e (record { known = known; distinct = d; bounded = ground arith })
    ]

pub unknown :
    (id : Text) (c : Subscriber)
    → IsWindow c
    → lookup id c.seen ≡ none
    → has id c.seen_order ≡ false
unknown id c v e = ground (arith, v.known id)

add_seen-IsWindow :
    (id : Text) (c : Subscriber) → IsWindow c → lookup id c.seen ≡ none → IsWindow (add_seen id c)
unfolding add_seen ◌+ℤ◌
add_seen-IsWindow id c v e =
    bound_seen-IsWindow
      (record c { seen = insert id tt c.seen; seen_order = c.seen_order ++ id ∷ [] })
      (λ j. ground (arith, v.known j, lookup-insert id j tt c.seen, has-snoc j id c.seen_order))
      (snoc-Distinct id c.seen_order (unknown id c v e) v.distinct)
      (ground (arith, v.bounded, length-snoc id c.seen_order))
      (ground (arith, length-snoc id c.seen_order))

-- The window stays in order whatever arrives.
pub mark_seen-IsWindow : (id : Text) (c : Subscriber) → IsWindow c → IsWindow (mark_seen id c).1
unfolding mark_seen
mark_seen-IsWindow [] c v = v
mark_seen-IsWindow (b ∷ id) c v = elim (Option-cases (lookup (b ∷ id) c.seen)) [
  | inl e ↦ rw e (add_seen-IsWindow (b ∷ id) c v e)
  | inr (u, e) ↦ rw e v
]

pub mark_all-IsWindow : (ids : List Text) (c : Subscriber) → IsWindow c → IsWindow (mark_all ids c)
unfolding mark_all
mark_all-IsWindow [] c v = v
mark_all-IsWindow (x ∷ ids) c v = mark_all-IsWindow ids (mark_seen x c).1 (mark_seen-IsWindow x c v)

pub new_subscriber-IsWindow : IsWindow new_subscriber
unfolding new_subscriber lookup has
new_subscriber-IsWindow = record {
  known = λ id. ground arith;
  distinct = tt;
  bounded = omega arith;
}

-- Whatever ids arrive at a new client, its set and its order hold the same ids, each once, and no
-- more of them than the limit.
pub mark_all-new_subscriber : (ids : List Text) → IsWindow (mark_all ids new_subscriber)
mark_all-new_subscriber ids = mark_all-IsWindow ids new_subscriber new_subscriber-IsWindow

-- ===== src/GoClient/Recent.antt =====
-- For how long the Go client knows an id.
use goctopus.GoClient.Window.{
  has-snoc, length-snoc, unknown, mark_seen-IsWindow, mark_all-IsWindow, IsWindow,
}
use goctopus.GoClient.{forget_oldest, bound_seen, add_seen, mark_seen, mark_all, Subscriber}
use goctopus.Prelude.GoMap.{lookup, insert}
use goctopus.Prelude.{
  if◌then◌else◌, Bool-cases, Option-cases, decide, length, ltb_ℤ, ◌≤ℤ◌, ◌<ℤ◌, pos, Text,
  Text-discrete, has, ℕ, ◌+◌, ◌≤◌, ◌<◌, ◌≡◌, refl, ◌≢◌, inl, inr, true, false, none, List, [], ◌∷◌,
  ◌++◌, arith, text_key,
}

-- How many ids were added behind an id.
unfoldable after : Text → List Text → ℕ
after id [] = 0
after id (x ∷ xs) = if decide (Text-discrete x id) then length xs else after id xs

after-snoc :
    (id x : Text) (xs : List Text) → has id xs ≡ true → after id (xs ++ x ∷ []) ≡ after id xs + 1
unfolding has after
after-snoc id x [] h = cc
after-snoc id x (y ∷ xs) h = ground (arith, after-snoc id x xs, length-snoc x xs)

after-snoc_same : (id : Text) (xs : List Text) → has id xs ≡ false → after id (xs ++ id ∷ []) ≡ 0
unfolding has after
after-snoc_same id [] h = ground arith
after-snoc_same id (y ∷ xs) h = ground (arith, after-snoc_same id xs)

record IsRecent (n : ℕ) (id : Text) (c : Subscriber) : Type 0 where
  held : has id c.seen_order ≡ true
  near : after id c.seen_order ≤ n

forget_oldest-IsRecent :
    (n : ℕ) (id : Text) (order : List Text) (c : Subscriber)
    → has id order ≡ true
    → after id order ≤ n
    → n + 1 < length order
    → IsRecent n id (forget_oldest order c)
unfolding forget_oldest has after
forget_oldest-IsRecent n id [] c h a l = absurd (omega (arith, l))
forget_oldest-IsRecent n id (oldest ∷ rest) c h a l = record {
  held = ground arith;
  near = ground arith;
}

bound_seen-IsRecent :
    (n : ℕ) (id : Text) (c : Subscriber)
    → IsRecent n id c
    → pos (n + 1) ≤ℤ c.dedupe_limit
    → IsRecent n id (bound_seen c)
unfolding bound_seen
bound_seen-IsRecent n id c r le =
    elim (Bool-cases (ltb_ℤ c.dedupe_limit (pos (length c.seen_order)))) [
      | inl e ↦ rw e (forget_oldest-IsRecent n id c.seen_order c r.held r.near (ground arith))
      | inr e ↦ rw e r
    ]

add_seen-IsRecent_new :
    (id : Text) (c : Subscriber)
    → IsWindow c
    → lookup id c.seen ≡ none
    → pos 1 ≤ℤ c.dedupe_limit
    → IsRecent 0 id (add_seen id c)
unfolding add_seen
add_seen-IsRecent_new id c v e le =
    bound_seen-IsRecent 0 id _
      (record {
        held = ground (arith, has-snoc id id c.seen_order);
        near = ground (arith, after-snoc_same id c.seen_order, unknown id c v e);
      })
      le

mark_seen-IsRecent :
    (n : ℕ) (x id : Text) (c : Subscriber)
    → IsRecent n id c
    → pos (n + 2) ≤ℤ c.dedupe_limit
    → IsRecent (n + 1) id (mark_seen x c).1
unfolding mark_seen add_seen
mark_seen-IsRecent n [] id c r le = record { held = r.held; near = omega (arith, r.near) }
mark_seen-IsRecent n (b ∷ x) id c r le = elim (Option-cases (lookup (b ∷ x) c.seen)) [
  | inr (u, e) ↦ rw e (record { held = r.held; near = omega (arith, r.near) })
  | inl e ↦ rw e (
      bound_seen-IsRecent (n + 1) id
        (record c { seen = insert (b ∷ x) tt c.seen; seen_order = c.seen_order ++ (b ∷ x) ∷ [] })
        (record {
          held = ground (arith, has-snoc id (b ∷ x) c.seen_order, r.held);
          near = omega (arith, after-snoc id (b ∷ x) c.seen_order r.held, r.near);
        })
        (ground arith))
]

forget_oldest-dedupe_limit :
    (order : List Text) (c : Subscriber) → (forget_oldest order c).dedupe_limit ≡ c.dedupe_limit
unfolding forget_oldest
forget_oldest-dedupe_limit [] c = refl
forget_oldest-dedupe_limit (x ∷ xs) c = refl

mark_seen-dedupe_limit :
    (x : Text) (c : Subscriber) → (mark_seen x c).1.dedupe_limit ≡ c.dedupe_limit
unfolding mark_seen add_seen bound_seen
mark_seen-dedupe_limit x c = ground (
  arith,
  forget_oldest-dedupe_limit (c.seen_order ++ x ∷ [])
      (record c { seen = insert x tt c.seen; seen_order = c.seen_order ++ x ∷ [] }),
)

mark_all-IsRecent :
    (n : ℕ) (ids : List Text) (id : Text) (c : Subscriber)
    → IsRecent n id c
    → pos (n + length ids + 1) ≤ℤ c.dedupe_limit
    → IsRecent (n + length ids) id (mark_all ids c)
unfolding mark_all
mark_all-IsRecent n [] id c r le = record { held = r.held; near = omega (arith, r.near) }
mark_all-IsRecent n (x ∷ ids) id c r le =
    let le' : pos (n + 1 + length ids + 1) ≤ℤ (mark_seen x c).1.dedupe_limit =
      rw (mark_seen-dedupe_limit x c) (ground arith) in
    let later =
      mark_all-IsRecent (n + 1) ids id (mark_seen x c).1
        (mark_seen-IsRecent n x id c r (ground arith)) le' in
    record { held = later.held; near = omega (arith, later.near) }

mark_seen_known :
    (id : Text) (c : Subscriber)
    → IsWindow c
    → id ≢ []
    → has id c.seen_order ≡ true
    → (mark_seen id c).0 ≡ false
unfolding mark_seen
mark_seen_known id c v ne h = ground (arith, v.known id)

mark_seen_new :
    (id : Text) (c : Subscriber)
    → IsWindow c
    → id ≢ []
    → (mark_seen id c).0 ≡ true
    → pos 1 ≤ℤ c.dedupe_limit
    → IsRecent 0 id (mark_seen id c).1
unfolding mark_seen
mark_seen_new id c v ne new le = elim (Option-cases (lookup id c.seen)) [
  | inr (u, e) ↦ absurd (ground arith)
  | inl e ↦ rw e (ground (arith, add_seen-IsRecent_new id c v e le))
]

-- A message that the Go client has handed over is not handed over again until as many ids as its
-- limit have arrived in between: with fewer of them the same id is refused. Its window must be in
-- order, as it is from the start, and the id must not be empty.
pub mark_seen_again :
    (id : Text) (ids : List Text) (c : Subscriber)
    → IsWindow c
    → id ≢ []
    → (mark_seen id c).0 ≡ true
    → pos (length ids) <ℤ c.dedupe_limit
    → (mark_seen id (mark_all ids (mark_seen id c).1)).0 ≡ false
mark_seen_again id ids c v ne new few =
    let first = mark_seen_new id c v ne new (ground arith) in
    let le : pos (0 + length ids + 1) ≤ℤ (mark_seen id c).1.dedupe_limit =
      rw (mark_seen-dedupe_limit id c) (ground arith) in
    mark_seen_known id _ (mark_all-IsWindow ids _ (mark_seen-IsWindow id c v)) ne
      (mark_all-IsRecent 0 ids id (mark_seen id c).1 first le).held

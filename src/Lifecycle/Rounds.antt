-- ===== src/Lifecycle/Rounds.antt =====
-- The keys that a round of `reconcileLoop` flushes.
use goctopus.Config.{listed}
use goctopus.Prelude.GoMap.{Map, lookup}
use goctopus.Prelude.Collect.{
  collect_all, collect_all-IsCollected, has-collect_all, nothing_collected,
  nothing_collected-IsCollected, Collected, IsCollected,
}
use goctopus.Registry.Invariant.{IsRegistry}
use goctopus.Message.{Message, Platform}
use goctopus.Storage.{Storage, IsStorage}
use goctopus.Engine.Lookup.{has-clients_for_key}
use goctopus.Engine.{conns_of, clients_for_key, matching, storage_keys_matching, Goctopus}
use goctopus.Topics.{has_wildcard, key_matches}
use goctopus.Lifecycle.{split_keys, collect_stored, reconcile_keys}
use goctopus.Prelude.{
  Bool-cases, Option-cases, Text, Text-discrete, has, ℕ, ◌≡◌, refl, sym, ap, ◌∙◌, ◌≢◌, ◌⊎◌, inl,
  inr, true, false, ◌&&◌, none, List, [], ◌∷◌, arith, text_key, nat_key,
}

split_keys-concrete :
    (conns : Map Text (List ℕ)) (k : Text) (cid : ℕ)
    → has cid (conns_of conns k) ≡ true
    → has_wildcard k ≡ false
    → has k (split_keys conns).0 ≡ true
unfolding split_keys conns_of lookup has
split_keys-concrete [] k cid h w = ground arith
split_keys-concrete ((j, cids) ∷ conns) k cid h w = elim (Text-discrete j k) [
  | yes e ↦ ground (arith, ap has_wildcard e)
  | no e ↦ ground (arith, split_keys-concrete conns k cid)
]

split_keys-patterns :
    (conns : Map Text (List ℕ)) (k : Text) (cid : ℕ)
    → has cid (conns_of conns k) ≡ true
    → has_wildcard k ≡ true
    → has k (split_keys conns).1 ≡ true
unfolding split_keys conns_of lookup has
split_keys-patterns [] k cid h w = ground arith
split_keys-patterns ((j, cids) ∷ conns) k cid h w = elim (Text-discrete j k) [
  | yes e ↦ ground (arith, ap has_wildcard e)
  | no e ↦ ground (arith, split_keys-patterns conns k cid)
]

has-matching :
    (p : Platform) (pattern_key k : Text) (keys : List Text)
    → has k (matching p pattern_key keys) ≡ (has k keys && key_matches p pattern_key k)
unfolding matching has
has-matching p pattern_key k [] = refl
has-matching p pattern_key k (j ∷ keys) = elim (Text-discrete j k) [
  | yes e ↦ ground (arith, has-matching p pattern_key k keys, ap (key_matches p pattern_key) e)
  | no e ↦ ground (arith, has-matching p pattern_key k keys)
]

matches_plain :
    (p : Platform) (j k : Text) → has_wildcard j ≡ false → key_matches p j k ≡ true → j ≡ k
unfolding key_matches
matches_plain p j k w m = elim (Text-discrete j k) [ yes e ↦ e | no e ↦ absurd (ground arith) ]

module _ {S : Type 0} (st : Storage S) (view : S → Text → List Message) (law : IsStorage st view)
    (p : Platform) (answers : (s : S) → (st.get_keys s).0 ≢ none) where
  has-storage_keys_matching :
      (pattern_key k : Text) (s : S)
      → key_matches p pattern_key k ≡ true
      → view s k ≢ []
      → has k (storage_keys_matching st p pattern_key s).0 ≡ true
  unfolding storage_keys_matching
  has-storage_keys_matching pattern_key k s m stored = elim (Option-cases (st.get_keys s).0) [
    | inl e ↦ absurd (answers s e)
    | inr (keys, e) ↦ elim (Bool-cases (has k keys)) [
      | inl h ↦ rw e (ground (arith, has-matching p pattern_key k keys))
      | inr h ↦ absurd (stored (law.get_keys_result s keys k e h))
    ]
  ]

  collect_stored-has :
      (patterns : List Text) (k : Text) (c : Collected Text) (s : S)
      → IsCollected c
      → view s k ≢ []
      → (has k c.out ≡ true) ⊎ ((j : Text) × (has j patterns ≡ true) × (key_matches p j k ≡ true))
      → has k (collect_stored st p c patterns s).0.out ≡ true
  unfolding collect_stored has
  collect_stored-has [] k c s v stored (inl h) = h
  collect_stored-has [] k c s v stored (inr (j, h, m)) = ground arith
  collect_stored-has (i ∷ patterns) k c s v stored h =
      let keys = (storage_keys_matching st p i s).0 in
      let c' = collect_all c keys in
      let found = has-collect_all c keys k v in
      let next =
        collect_stored-has patterns k c' _ (collect_all-IsCollected c keys v)
          (λ e. stored (sym (law.get_keys_view k s) ∙ e)) in
      elim h [
        | inl already ↦ next (inl (ground arith))
        | inr (j, listed, m) ↦ elim (Text-discrete i j) [
          | yes e ↦ next (inl (ground (arith, has-storage_keys_matching i k s (rw e m) stored)))
          | no e ↦ next (inr (j, ground arith, m))
        ]
      ]

  -- Where the registry's invariant holds and a storage that keeps to the interface can list its
  -- keys: a round flushes every key without wildcards under which a message is stored and for which
  -- a connection of the instance is to be served, be it registered under the key or under a pattern
  -- that matches it.
  pub reconcile_keys-has :
      (g : Goctopus S) (k : Text) (cid : ℕ)
      → IsRegistry g
      → has_wildcard k ≡ false
      → has cid (clients_for_key p k g.conns g.patterns) ≡ true
      → view g.storage k ≢ []
      → has k (reconcile_keys st p g).0 ≡ true
  unfolding reconcile_keys
  reconcile_keys-has g k cid v concrete for_client stored =
      let (j, matched, registered) =
        ((has-clients_for_key p k g.conns g.patterns v.patterns_known).0 cid).0 for_client in
      let start = nothing_collected-IsCollected in
      let keys = (split_keys g.conns).0 in
      let found = has-collect_all nothing_collected keys k start in
      let rest =
        collect_stored-has (split_keys g.conns).1 k _ g.storage
          (collect_all-IsCollected nothing_collected keys start) stored in
      elim (Bool-cases (has_wildcard j)) [
        | inl w ↦ rest (
            inr (
              j,
              split_keys-patterns g.conns j cid registered w,
              elim matched [ inl e ↦ absurd (ground (arith, ap has_wildcard e)) | inr m ↦ m ],
            ))
        | inr w ↦
            let same : j ≡ k = elim matched [ inl e ↦ e | inr m ↦ matches_plain p j k w m ] in
            rest (
              inl (
                ground (
                  arith,
                  split_keys-concrete g.conns j cid registered w,
                  ap (λ x. has x keys) same,
                )))
      ]

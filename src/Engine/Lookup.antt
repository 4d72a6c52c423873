-- ===== src/Engine/Lookup.antt =====
-- Which clients `clientsForKey` finds.
use goctopus.Prelude.{
  Bool-cases, Text, Text-discrete, has, Distinct, ℕ, ◌≡◌, refl, ◌∙◌, ◌≢◌, ◌↔◌, ◌⊎◌, inl, inr, Bool,
  true, false, ◌&&◌, ◌||◌, none, List, [], ◌∷◌, arith, nat_key, text_key,
}
use goctopus.Prelude.GoMap.{Map, lookup}
use goctopus.Prelude.Collect.{
  collect_all, collect_all-IsCollected, has-collect_all, nothing_collected,
  nothing_collected-IsCollected, Collected, IsCollected,
}
use goctopus.Message.{Platform}
use goctopus.Topics.{has_wildcard, key_matches}
use goctopus.Engine.{conns_of, add_pattern, add_patterns, clients_for_key}

-- Whether a pattern in the list matches the key and has the client.
reached : Platform → Text → Map Text (List ℕ) → ℕ → List (Text × Bool) → Bool
reached p key conns cid [] = false
reached p key conns cid ((k, _) ∷ rest) =
    key_matches p k key && has cid (conns_of conns k) || reached p key conns cid rest

-- Every wildcard key that has a connection is known as a pattern.
abbrev pub PatternsKnown : Map Text (List ℕ) → List (Text × Bool) → Type 0
PatternsKnown conns pats =
    (k : Text) → has_wildcard k ≡ true → conns_of conns k ≢ [] → lookup k pats ≢ none

module _ (p : Platform) (key : Text) (conns : Map Text (List ℕ)) where
  step-IsCollected :
      (k : Text) (c : Collected ℕ) → IsCollected c → IsCollected (add_pattern p key conns c k)
  unfolding add_pattern
  step-IsCollected k c v = elim (Bool-cases (key_matches p k key)) [
    | inl e ↦ rw e (collect_all-IsCollected c (conns_of conns k) v)
    | inr e ↦ rw e v
  ]

  add_patterns-IsCollected :
      (c : Collected ℕ) (pats : List (Text × Bool))
      → IsCollected c
      → IsCollected (add_patterns p key conns c pats)
  unfolding add_patterns
  add_patterns-IsCollected c [] v = v
  add_patterns-IsCollected c ((k, b) ∷ rest) v =
      add_patterns-IsCollected (add_pattern p key conns c k) rest (step-IsCollected k c v)

  has-step :
      (cid : ℕ) (k : Text) (c : Collected ℕ)
      → IsCollected c
      → has cid (add_pattern p key conns c k).out
        ≡ (has cid c.out || key_matches p k key && has cid (conns_of conns k))
  unfolding add_pattern
  has-step cid k c v = elim (Bool-cases (key_matches p k key)) [
    | inl e ↦ rw e (has-collect_all c (conns_of conns k) cid v)
    | inr e ↦ rw e (ground arith)
  ]

  has-add_patterns :
      (cid : ℕ) (c : Collected ℕ) (pats : List (Text × Bool))
      → IsCollected c
      → has cid (add_patterns p key conns c pats).out
        ≡ (has cid c.out || reached p key conns cid pats)
  unfolding add_patterns reached
  has-add_patterns cid c [] v = ground arith
  has-add_patterns cid c ((k, b) ∷ rest) v =
      has-add_patterns cid (add_pattern p key conns c k) rest (step-IsCollected k c v)
      ∙ ground (arith, has-step cid k c v)

  reached_sound :
      (cid : ℕ) (pats : List (Text × Bool))
      → reached p key conns cid pats ≡ true
      → (k : Text) × (key_matches p k key ≡ true) × (has cid (conns_of conns k) ≡ true)
  unfolding reached
  reached_sound cid [] h = cc
  reached_sound cid ((k, b) ∷ rest) h =
      elim (Bool-cases (key_matches p k key && has cid (conns_of conns k))) [
        | inl e ↦ (k, ground arith, ground arith)
        | inr e ↦ reached_sound cid rest (ground arith)
      ]

  reached_complete :
      (cid : ℕ) (pats : List (Text × Bool)) (k : Text)
      → lookup k pats ≢ none
      → key_matches p k key ≡ true
      → has cid (conns_of conns k) ≡ true
      → reached p key conns cid pats ≡ true
  unfolding reached lookup
  reached_complete cid [] k present m h = ground arith
  reached_complete cid ((j, b) ∷ rest) k present m h = elim (Text-discrete j k) [
    | yes e ↦ rw (e, m, h)
    | no e ↦ ground (arith, reached_complete cid rest k)
  ]

  -- A key without a wildcard matches itself alone.
  concrete_key : (k : Text) → has_wildcard k ≡ false → key_matches p k key ≡ true → k ≡ key
  unfolding key_matches
  concrete_key k w m = ground arith

  empty_conns : (cid : ℕ) (k : Text) → has cid (conns_of conns k) ≡ true → conns_of conns k ≢ []
  unfolding has
  empty_conns cid k h e = ground arith

  has-clients_for_key_sound :
      (pats : List (Text × Bool)) (cid : ℕ)
      → has cid (clients_for_key p key conns pats) ≡ true
      → (k : Text) × ((k ≡ key) ⊎ (key_matches p k key ≡ true))
        × (has cid (conns_of conns k) ≡ true)
  unfolding clients_for_key nothing_collected has
  has-clients_for_key_sound pats cid h = elim (Bool-cases (has cid (conns_of conns key))) [
    | inl e ↦ (key, inl refl, e)
    | inr e ↦
        let (k, m, e') = reached_sound cid pats (
          ground (
            arith,
            has-collect_all nothing_collected (conns_of conns key) cid
                nothing_collected-IsCollected,
            has-add_patterns cid (collect_all nothing_collected (conns_of conns key)) pats (
                collect_all-IsCollected nothing_collected (conns_of conns key)
                  nothing_collected-IsCollected),
          )) in
        (k, inr m, e')
  ]

  has-clients_for_key_complete :
      (pats : List (Text × Bool)) (cid : ℕ) (k : Text)
      → PatternsKnown conns pats
      → (k ≡ key) ⊎ (key_matches p k key ≡ true)
      → has cid (conns_of conns k) ≡ true
      → has cid (clients_for_key p key conns pats) ≡ true
  unfolding clients_for_key nothing_collected has
  has-clients_for_key_complete pats cid k known m h = ground (
    arith,
    has-collect_all nothing_collected (conns_of conns key) cid nothing_collected-IsCollected,
    has-add_patterns cid (collect_all nothing_collected (conns_of conns key)) pats (
        collect_all-IsCollected nothing_collected (conns_of conns key)
          nothing_collected-IsCollected),
    concrete_key k,
    reached_complete cid pats k,
    known k,
    empty_conns cid k,
  )

  -- Where every wildcard key in use is known as a pattern, a client is found for a key exactly when
  -- it is registered under that key, or under one that matches it; and it is found once.
  pub has-clients_for_key :
      (pats : List (Text × Bool))
      → PatternsKnown conns pats
      → ((cid : ℕ)
          → (has cid (clients_for_key p key conns pats) ≡ true) ↔ (
              (k : Text) × ((k ≡ key) ⊎ (key_matches p k key ≡ true))
              × (has cid (conns_of conns k) ≡ true)))
        × Distinct (clients_for_key p key conns pats)
  unfolding clients_for_key
  has-clients_for_key pats known = (
    (λ cid. (
      has-clients_for_key_sound pats cid,
      λ (k, m, h). has-clients_for_key_complete pats cid k known m h,
    )),
    (add_patterns-IsCollected _ pats (
        collect_all-IsCollected nothing_collected (conns_of conns key)
          nothing_collected-IsCollected)).distinct,
  )

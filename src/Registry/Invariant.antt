-- ===== src/Registry/Invariant.antt =====
-- The registry's invariant.
use goctopus.Client.{new_client}
use goctopus.Prelude.{
  if◌then◌else◌, decide, Text, Text-discrete, has, has-append, ℕ, ◌+◌, ◌<◌, ◌≡◌, refl, ◌≢◌, Bool,
  true, ◌&&◌, ◌||◌, none, some, List, [], ◌∷◌, ◌++◌, arith, ℕ_discrete, text_key, nat_key,
}
use goctopus.Prelude.GoMap.{lookup, lookup-insert}
use goctopus.Topics.{has_wildcard}
use goctopus.Engine.{store, conns_of, Goctopus}
use goctopus.Engine.Lookup.{PatternsKnown}
use goctopus.Registry.{save_key, save_keys, register}

-- The registry alone: no key is kept without a connection, a pattern is known exactly while it has
-- one, and a connection stands only under its own keys.
pub record IsRegistry {S : Type 0} (g : Goctopus S) : Type 0 where
  pub no_empty : (k : Text) → lookup k g.conns ≢ some []
  pub patterns_known : PatternsKnown g.conns g.patterns
  pub patterns_used :
      (k : Text) → lookup k g.patterns ≢ none → (has_wildcard k ≡ true) × (conns_of g.conns k ≢ [])
  pub own_keys :
      (k : Text) (x : ℕ)
      → has x (conns_of g.conns k) ≡ true
      → (has k (g.clients x).keys ≡ true) × (x < g.next)

snoc-ne-nil : (xs : List ℕ) (x : ℕ) → xs ++ x ∷ [] ≢ []
snoc-ne-nil [] x = ground arith
snoc-ne-nil (y ∷ xs) x = ground arith

module _ {S : Type 0} where
  conns_of-save_key :
      (cid : ℕ) (key k : Text) (g : Goctopus S)
      → conns_of (save_key cid key g).conns k ≡ (
          if decide (Text-discrete key k)
          then conns_of g.conns key ++ cid ∷ []
          else conns_of g.conns k)
  unfolding save_key conns_of
  conns_of-save_key cid key k g =
      ground (arith, lookup-insert key k (conns_of g.conns key ++ cid ∷ []) g.conns)

  patterns-save_key :
      (cid : ℕ) (key k : Text) (g : Goctopus S)
      → lookup k (save_key cid key g).patterns ≡ (
          if has_wildcard key && decide (Text-discrete key k)
          then some true
          else lookup k g.patterns)
  unfolding save_key
  patterns-save_key cid key k g = ground (arith, lookup-insert key k true g.patterns)

  save_key_no_empty :
      (cid : ℕ) (key k : Text) (g : Goctopus S)
      → lookup k g.conns ≢ some []
      → lookup k (save_key cid key g).conns ≢ some []
  unfolding save_key
  save_key_no_empty cid key k g h = ground (
    arith,
    lookup-insert key k (conns_of g.conns key ++ cid ∷ []) g.conns,
    snoc-ne-nil (conns_of g.conns key) cid,
  )

  has-save_key :
      (cid : ℕ) (key k : Text) (x : ℕ) (g : Goctopus S)
      → has x (conns_of (save_key cid key g).conns k)
        ≡ (has x (conns_of g.conns k) || decide (Text-discrete key k) && decide (ℕ_discrete cid x))
  unfolding has
  has-save_key cid key k x g =
      ground (arith, conns_of-save_key cid key k g, has-append x (conns_of g.conns key) (cid ∷ []))

  save_key_own :
      (cid : ℕ) (key k : Text) (x : ℕ) (g : Goctopus S)
      → cid < g.next
      → has key (g.clients cid).keys ≡ true
      → (has x (conns_of g.conns k) ≡ true → (has k (g.clients x).keys ≡ true) × (x < g.next))
      → has x (conns_of (save_key cid key g).conns k) ≡ true
      → (has k ((save_key cid key g).clients x).keys ≡ true) × (x < (save_key cid key g).next)
  unfolding save_key
  save_key_own cid key k x g new own old = ground (arith, has-save_key cid key k x g)

  save_key-IsRegistry :
      (cid : ℕ) (key : Text) (g : Goctopus S)
      → cid < g.next
      → has key (g.clients cid).keys ≡ true
      → IsRegistry g
      → IsRegistry (save_key cid key g)
  save_key-IsRegistry cid key g new own v = record {
    no_empty = λ k. save_key_no_empty cid key k g (v.no_empty k);
    patterns_known = λ k.
        ground
          (arith, patterns-save_key cid key k g, conns_of-save_key cid key k g, v.patterns_known k);
    patterns_used = λ k. ground (
      arith,
      patterns-save_key cid key k g,
      conns_of-save_key cid key k g,
      v.patterns_used k,
      snoc-ne-nil (conns_of g.conns key) cid,
    );
    own_keys = λ k x. save_key_own cid key k x g new own (v.own_keys k x);
  }

  save_keys-IsRegistry :
      (cid : ℕ) (keys : List Text) (g : Goctopus S)
      → cid < g.next
      → ((k : Text) → has k keys ≡ true → has k (g.clients cid).keys ≡ true)
      → IsRegistry g
      → IsRegistry (save_keys cid keys g)
  unfolding save_keys has save_key
  save_keys-IsRegistry cid [] g new own v = v
  save_keys-IsRegistry cid (key ∷ keys) g new own v =
      save_keys-IsRegistry cid keys (save_key cid key g) new (λ k h. own k (ground (arith, h)))
        (save_key-IsRegistry cid key g new (own key (ground arith)) v)

  -- The heap with a client in a new place.
  allocated : List Text → Bool → Goctopus S → Goctopus S
  allocated keys compress g = record g {
    clients = store g.clients g.next (new_client keys compress);
    next = g.next + 1;
  }

  allocated_own :
      (keys : List Text) (compress : Bool) (g : Goctopus S) (k : Text) (x : ℕ)
      → (has x (conns_of g.conns k) ≡ true → (has k (g.clients x).keys ≡ true) × (x < g.next))
      → has x (conns_of g.conns k) ≡ true
      → (has k ((allocated keys compress g).clients x).keys ≡ true)
        × (x < (allocated keys compress g).next)
  unfolding allocated store
  allocated_own keys compress g k x old h = ground (arith, old h)

  allocated-IsRegistry :
      (keys : List Text) (compress : Bool) (g : Goctopus S)
      → IsRegistry g
      → IsRegistry (allocated keys compress g)
  unfolding allocated
  allocated-IsRegistry keys compress g v = record {
    no_empty = v.no_empty;
    patterns_known = v.patterns_known;
    patterns_used = v.patterns_used;
    own_keys = λ k x. allocated_own keys compress g k x (v.own_keys k x);
  }

  allocated_keys :
      (keys : List Text) (compress : Bool) (g : Goctopus S)
      → ((allocated keys compress g).clients g.next).keys ≡ keys
  unfolding allocated store new_client
  allocated_keys keys compress g = ground arith

  -- Saving a new connection keeps the registry's invariant.
  pub register-IsRegistry :
      (keys : List Text) (compress : Bool) (g : Goctopus S)
      → IsRegistry g
      → IsRegistry (register keys compress g)
  unfolding register allocated
  register-IsRegistry keys compress g v =
      save_keys-IsRegistry g.next keys (allocated keys compress g) (omega arith)
        (λ k h. rw (allocated_keys keys compress g) h) (allocated-IsRegistry keys compress g v)

  has-save_keys :
      (cid : ℕ) (keys : List Text) (k : Text) (x : ℕ) (g : Goctopus S)
      → has x (conns_of (save_keys cid keys g).conns k)
        ≡ (has x (conns_of g.conns k) || has k keys && decide (ℕ_discrete cid x))
  unfolding save_keys has
  has-save_keys cid [] k x g = ground arith
  has-save_keys cid (key ∷ keys) k x g =
      ground (arith, has-save_keys cid keys k x (save_key cid key g), has-save_key cid key k x g)

  save_keys_clients :
      (cid : ℕ) (keys : List Text) (g : Goctopus S) → (save_keys cid keys g).clients ≡ g.clients
  unfolding save_keys save_key
  save_keys_clients cid [] g = refl
  save_keys_clients cid (key ∷ keys) g = save_keys_clients cid keys (save_key cid key g)

  -- A new connection stands under its keys, and the others where they stood.
  pub has-register :
      (keys : List Text) (compress : Bool) (k : Text) (x : ℕ) (g : Goctopus S)
      → has x (conns_of (register keys compress g).conns k)
        ≡ (has x (conns_of g.conns k) || has k keys && decide (ℕ_discrete g.next x))
  unfolding register allocated
  has-register keys compress k x g = has-save_keys g.next keys k x (allocated keys compress g)

  pub register_clients :
      (keys : List Text) (compress : Bool) (g : Goctopus S)
      → (register keys compress g).clients ≡ store g.clients g.next (new_client keys compress)
  unfolding register allocated
  register_clients keys compress g = save_keys_clients g.next keys (allocated keys compress g)

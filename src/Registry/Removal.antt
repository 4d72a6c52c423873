-- ===== src/Registry/Removal.antt =====
-- Unregistering a client: `removeClient`.
use goctopus.Prelude.{
  if◌then◌else◌, decide, Text, Text-discrete, has, ℕ, ◌<◌, ◌≡◌, refl, ◌∙◌, ◌≢◌, true, not, ◌&&◌,
  none, some, List, [], ◌∷◌, arith, ℕ_discrete, text_key, nat_key,
}
use goctopus.Prelude.GoMap.{lookup, lookup-insert, lookup-delete}
use goctopus.Client.{close}
use goctopus.Message.{is_empty}
use goctopus.Engine.{store, conns_of, Goctopus}
use goctopus.Registry.{live, remove_key, remove_keys, remove_client}
use goctopus.Registry.Invariant.{IsRegistry}

has-live :
    (cid x : ℕ) (xs : List ℕ) → has x (live cid xs) ≡ (not (decide (ℕ_discrete cid x)) && has x xs)
unfolding has live
has-live cid x [] = ground arith
has-live cid x (y ∷ ys) = ground (arith, has-live cid x ys)

live_empty : (cid : ℕ) (xs : List ℕ) → xs ≡ [] → live cid xs ≡ []
unfolding live
live_empty cid [] h = refl
live_empty cid (x ∷ xs) h = ground arith

module _ {S : Type 0} where
  conns_of-remove_key :
      (cid : ℕ) (key k : Text) (g : Goctopus S)
      → conns_of (remove_key cid key g).conns k ≡ (
          if decide (Text-discrete key k)
          then live cid (conns_of g.conns key)
          else conns_of g.conns k)
  unfolding remove_key conns_of
  conns_of-remove_key cid key k g = ground (
    arith,
    lookup-insert key k (live cid (conns_of g.conns key)) g.conns,
    lookup-delete key k g.conns,
  )

  patterns-remove_key :
      (cid : ℕ) (key k : Text) (g : Goctopus S)
      → lookup k (remove_key cid key g).patterns ≡ (
          if is_empty (live cid (conns_of g.conns key)) && decide (Text-discrete key k)
          then none
          else lookup k g.patterns)
  unfolding remove_key
  patterns-remove_key cid key k g = ground (arith, lookup-delete key k g.patterns)

  remove_key_no_empty :
      (cid : ℕ) (key k : Text) (g : Goctopus S)
      → lookup k g.conns ≢ some []
      → lookup k (remove_key cid key g).conns ≢ some []
  unfolding remove_key
  remove_key_no_empty cid key k g h = ground (
    arith,
    lookup-insert key k (live cid (conns_of g.conns key)) g.conns,
    lookup-delete key k g.conns,
  )

  has-remove_key :
      (cid : ℕ) (key k : Text) (x : ℕ) (g : Goctopus S)
      → has x (conns_of (remove_key cid key g).conns k) ≡ (
          has x (conns_of g.conns k)
          && not (decide (Text-discrete key k) && decide (ℕ_discrete cid x)))
  has-remove_key cid key k x g =
      ground (arith, conns_of-remove_key cid key k g, has-live cid x (conns_of g.conns key))

  remove_key_own :
      (cid : ℕ) (key k : Text) (x : ℕ) (g : Goctopus S)
      → (has x (conns_of g.conns k) ≡ true → (has k (g.clients x).keys ≡ true) × (x < g.next))
      → has x (conns_of (remove_key cid key g).conns k) ≡ true
      → (has k ((remove_key cid key g).clients x).keys ≡ true) × (x < (remove_key cid key g).next)
  unfolding remove_key
  remove_key_own cid key k x g old = ground (arith, has-remove_key cid key k x g)

  remove_key-IsRegistry :
      (cid : ℕ) (key : Text) (g : Goctopus S) → IsRegistry g → IsRegistry (remove_key cid key g)
  remove_key-IsRegistry cid key g v = record {
    no_empty = λ k. remove_key_no_empty cid key k g (v.no_empty k);
    patterns_known = λ k. ground (
      arith,
      patterns-remove_key cid key k g,
      conns_of-remove_key cid key k g,
      v.patterns_known k,
      live_empty cid (conns_of g.conns key),
    );
    patterns_used = λ k. ground (
      arith,
      patterns-remove_key cid key k g,
      conns_of-remove_key cid key k g,
      v.patterns_used k,
    );
    own_keys = λ k x. remove_key_own cid key k x g (v.own_keys k x);
  }

  remove_keys-IsRegistry :
      (cid : ℕ) (keys : List Text) (g : Goctopus S)
      → IsRegistry g
      → IsRegistry (remove_keys cid keys g)
  unfolding remove_keys
  remove_keys-IsRegistry cid [] g v = v
  remove_keys-IsRegistry cid (key ∷ keys) g v =
      remove_keys-IsRegistry cid keys (remove_key cid key g) (remove_key-IsRegistry cid key g v)

  has-remove_keys :
      (cid : ℕ) (keys : List Text) (k : Text) (x : ℕ) (g : Goctopus S)
      → has x (conns_of (remove_keys cid keys g).conns k)
        ≡ (has x (conns_of g.conns k) && not (has k keys && decide (ℕ_discrete cid x)))
  unfolding remove_keys has
  has-remove_keys cid [] k x g = ground arith
  has-remove_keys cid (key ∷ keys) k x g =
      ground
        (arith, has-remove_keys cid keys k x (remove_key cid key g), has-remove_key cid key k x g)

  -- The heap with the client closed.
  closed_at : ℕ → Goctopus S → Goctopus S
  closed_at cid g = record g { clients = store g.clients cid (close (g.clients cid)) }

  closed_keys :
      (cid x : ℕ) (g : Goctopus S) → ((closed_at cid g).clients x).keys ≡ (g.clients x).keys
  unfolding closed_at store close
  closed_keys cid x g = ground arith

  closed_at-IsRegistry : (cid : ℕ) (g : Goctopus S) → IsRegistry g → IsRegistry (closed_at cid g)
  unfolding closed_at
  closed_at-IsRegistry cid g v = record {
    no_empty = v.no_empty;
    patterns_known = v.patterns_known;
    patterns_used = v.patterns_used;
    own_keys = λ k x h. (rw (closed_keys cid x g) (v.own_keys k x h).0, (v.own_keys k x h).1);
  }

  -- Unregistering a client keeps the registry's invariant.
  pub remove_client-IsRegistry :
      (cid : ℕ) (g : Goctopus S) → IsRegistry g → IsRegistry (remove_client cid g)
  unfolding remove_client closed_at
  remove_client-IsRegistry cid g v =
      remove_keys-IsRegistry cid (g.clients cid).keys (closed_at cid g)
        (closed_at-IsRegistry cid g v)

  -- After a client is unregistered, where the registry's invariant held, it stands under no
  -- key, and every other client stands where it stood.
  pub has-remove_client :
      (cid : ℕ) (g : Goctopus S)
      → IsRegistry g
      → (k : Text) (x : ℕ)
      → has x (conns_of (remove_client cid g).conns k)
        ≡ (has x (conns_of g.conns k) && not (decide (ℕ_discrete cid x)))
  unfolding remove_client
  has-remove_client cid g v k x =
      has-remove_keys cid (g.clients cid).keys k x
        (record g { clients = store g.clients cid (close (g.clients cid)) })
      ∙ ground (arith, v.own_keys k x)

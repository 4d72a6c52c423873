-- ===== src/Lifecycle/Redelivery.antt =====
-- A round of `reconcileLoop` delivers what a notification missed.
use goctopus.Topics.{has_wildcard}
use goctopus.Prelude.Collect.{collect_all, nothing_collected, Collected}
use goctopus.Lifecycle.Rounds.{reconcile_keys-has}
use goctopus.Lifecycle.{split_keys, collect_stored, reconcile_keys, reconcile}
use goctopus.Registry.Invariant.{IsRegistry}
use goctopus.Server.Quiet.{send_messages-IsQuiet}
use goctopus.Connect.{flush_keys}
use goctopus.Client.{Client}
use goctopus.Engine.{storage_keys_matching, Goctopus}
use goctopus.Config.{Config}
use goctopus.Storage.{Storage, IsStorage}
use goctopus.Message.{Message, Platform}
use goctopus.Prelude.{
  Text, Text-discrete, has, ℕ, ◌≡◌, refl, subst, ◌∙◌, ◌≢◌, inl, inr, true, false, none, List, [],
  ◌∷◌, arith, text_key, nat_key,
}
use goctopus.Delivery.{send_messages, Flush}
use goctopus.Delivery.Flushes.{
  receivers, fetched, send_messages_answered, answer_of, send_messages-AllSettled,
  send_messages-view,
}
use goctopus.Delivery.Settled.{AllSettled, RefusesMore, AllRefuse-mono, send_queue-RefusesMore}

AllSettled-mono :
    (p : Platform) (clock : ℕ → ℕ) (cids : List ℕ) (queue : List Message) (heap heap' : ℕ → Client)
    → RefusesMore heap heap'
    → AllSettled p clock cids queue heap
    → AllSettled p clock cids queue heap'
AllSettled-mono p clock cids [] heap heap' more a = tt
AllSettled-mono p clock cids (m ∷ queue) heap heap' more a = (
  elim a.0 [ inl idle ↦ inl idle | inr all ↦ inr (AllRefuse-mono m.id cids heap heap' more all) ],
  AllSettled-mono p clock cids queue heap heap' more a.1,
)

module _ {S : Type 0} (st : Storage S) (view : S → Text → List Message) (law : IsStorage st view)
    (p : Platform) (cfg : Config) (lists : (s : S) → (st.get_keys s).0 ≢ none)
    (answers : (k : Text) (s : S) → (st.get_queue k s).0 ≢ none) where
  send_messages-RefusesMore :
      (f : Flush) (key : Text) (g : Goctopus S)
      → RefusesMore g.clients (send_messages st p f key g).clients
  send_messages-RefusesMore f key g id x h =
      let looped =
        (send_messages_answered st view law p key f g
          (answer_of st view law p key g (answers key g.storage))).0 in
      rw looped (
        send_queue-RefusesMore p f key (receivers st view law p key g) (view g.storage key)
          (fetched st view law p key g) id x h)

  flush_keys-RefusesMore :
      (flush_of : Text → Flush) (keys : List Text) (g : Goctopus S)
      → RefusesMore g.clients (flush_keys st p cfg flush_of keys g).clients
  unfolding flush_keys
  flush_keys-RefusesMore flush_of [] g id x h = h
  flush_keys-RefusesMore flush_of (k ∷ keys) g id x h =
      flush_keys-RefusesMore flush_of keys _ id x
        (send_messages-RefusesMore (flush_of k) k g id x h)

  -- Every pending message of a key is in flight at every client of the key.
  abbrev pub Delivered : (Text → Flush) → Text → Goctopus S → Goctopus S → Type 0
  Delivered flush_of k g g' =
      AllSettled p (flush_of k).clock (receivers st view law p k g) (view g.storage k) g'.clients

  flush_keys-Delivered :
      (flush_of : Text → Flush) (k : Text) (keys : List Text) (g : Goctopus S)
      → has k keys ≡ true
      → Delivered flush_of k g (flush_keys st p cfg flush_of keys g)
  unfolding flush_keys has
  flush_keys-Delivered flush_of k [] g h = absurd (ground arith)
  flush_keys-Delivered flush_of k (j ∷ keys) g h =
      let g1 = send_messages st p (flush_of j) j g in
      let quiet = send_messages-IsQuiet st p (flush_of j) j g in
      elim (Text-discrete j k) [
        | yes e ↦
            subst (λ x. Delivered flush_of x g (flush_keys st p cfg flush_of keys g1)) e
              (AllSettled-mono p (flush_of j).clock (receivers st view law p j g) (view g.storage j)
                g1.clients _ (flush_keys-RefusesMore flush_of keys g1)
                (send_messages-AllSettled st view law p j (flush_of j) g (answers j g.storage)))
        | no e ↦
            let rest = flush_keys-Delivered flush_of k keys g1 (ground arith) in
            rw (quiet.conns, quiet.patterns, send_messages-view st view law p j (flush_of j) g k) at
              rest
      ]

  -- Where nobody waits, or nothing is queued, all is delivered.
  nobody_waits :
      (clock : ℕ → ℕ) (queue : List Message) (heap : ℕ → Client) → AllSettled p clock [] queue heap
  nobody_waits clock [] heap = tt
  nobody_waits clock (m ∷ queue) heap = (inr tt, nobody_waits clock queue heap)

  unless_idle :
      (clock : ℕ → ℕ) (cids : List ℕ) (queue : List Message) (heap : ℕ → Client)
      → ((cid : ℕ) → has cid cids ≡ true → queue ≢ [] → AllSettled p clock cids queue heap)
      → AllSettled p clock cids queue heap
  unfolding has
  unless_idle clock [] queue heap settled = nobody_waits clock queue heap
  unless_idle clock (cid ∷ cids) [] heap settled = tt
  unless_idle clock (cid ∷ cids) (m ∷ queue) heap settled =
      settled cid (ground arith) (λ e. absurd (ground arith))

  collect_stored-view :
      (patterns : List Text) (c : Collected Text) (k : Text) (s : S)
      → view (collect_stored st p c patterns s).1 k ≡ view s k
  unfolding collect_stored storage_keys_matching
  collect_stored-view [] c k s = refl
  collect_stored-view (i ∷ patterns) c k s =
      collect_stored-view patterns (collect_all c (storage_keys_matching st p i s).0) k _
      ∙ law.get_keys_view k s

  reconcile_keys-view :
      (g : Goctopus S) (k : Text) → view (reconcile_keys st p g).1 k ≡ view g.storage k
  unfolding reconcile_keys
  reconcile_keys-view g k =
      let (concrete, patterns) = split_keys g.conns in
      collect_stored-view patterns (collect_all nothing_collected concrete) k g.storage

  -- With a storage that keeps to the interface and answers, and where the registry's invariant
  -- holds: after a round of `reconcileLoop`, each message in the queue of a key without wildcards
  -- that was not expired and could be marshalled is in flight at each client of the key, also one
  -- under a pattern, unless that client is closed; whatever was missed or sent before.
  pub reconcile-Delivered :
      (flush_of : Text → Flush) (g : Goctopus S) (k : Text)
      → IsRegistry g
      → has_wildcard k ≡ false
      → Delivered flush_of k g (reconcile st p cfg flush_of g)
  unfolding reconcile
  reconcile-Delivered flush_of g k v concrete =
      let (keys, s) = reconcile_keys st p g in
      let listed : Goctopus S = record g { storage = s } in
      unless_idle (flush_of k).clock (receivers st view law p k g) (view g.storage k) _
        (λ cid here stored.
          let flushed =
            flush_keys-Delivered flush_of k keys listed
              (reconcile_keys-has st view law p lists g k cid v concrete here stored) in
          rw (reconcile_keys-view g k) at flushed)

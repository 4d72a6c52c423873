-- ===== src/Sweeper/Removal.antt =====
-- A sweep removes the expired messages, and no other.
use goctopus.Prelude.{
  if◌then◌else◌, Bool-cases, decide, Text, Text-discrete, has, Distinct, ℕ, suc, ◌+◌, ◌≡◌, refl, ap,
  ◌∙◌, ◌≢◌, inl, inr, true, false, none, some, List, [], ◌∷◌, arith, text_key, nat_key,
}
use goctopus.Message.{is_expired, Message, Platform}
use goctopus.Storage.{Storage, IsStorage}
use goctopus.Storage.Queue.{without, ids}
use goctopus.Engine.{delete_msg_by_id, Goctopus}
use goctopus.Sweeper.{sweep_queue, count_expired, sweep_key}

-- The messages that are not expired, in their order; and how many are.
pub unexpired : Platform → (ℕ → ℕ) → List Message → List Message
unexpired p clock [] = []
unexpired p clock (m ∷ q) =
    let rest = unexpired p clock q in if is_expired p (clock m.id) m then rest else m ∷ rest

pub expired_count : Platform → (ℕ → ℕ) → List Message → ℕ
expired_count p clock [] = 0
expired_count p clock (m ∷ q) =
    let rest = expired_count p clock q in if is_expired p (clock m.id) m then suc rest else rest

-- The deletions of a sweep over one list, from another.
purged : Platform → (ℕ → ℕ) → List Message → List Message → List Message
purged p clock [] v = v
purged p clock (m ∷ q) v =
    purged p clock q (if is_expired p (clock m.id) m then without m.id v else v)

purged-cons :
    (p : Platform) (clock : ℕ → ℕ) (q v : List Message) (x : Message)
    → has x.id (ids q) ≡ false
    → purged p clock q (x ∷ v) ≡ x ∷ purged p clock q v
unfolding purged ids has without
purged-cons p clock [] v x h = refl
purged-cons p clock (m ∷ q) v x h =
    ground (arith, purged-cons p clock q v x, purged-cons p clock q (without m.id v) x)

purged-unexpired :
    (p : Platform) (clock : ℕ → ℕ) (q : List Message)
    → Distinct (ids q)
    → purged p clock q q ≡ unexpired p clock q
unfolding purged unexpired ids without
purged-unexpired p clock [] d = refl
purged-unexpired p clock (m ∷ q) d =
    ground (arith, purged-unexpired p clock q d.1, purged-cons p clock q q m d.0)

module _ {S : Type 0} (st : Storage S) (view : S → Text → List Message) (law : IsStorage st view)
    (deletes : (k : Text) (id : ℕ) (s : S) → (st.delete_message k id s).0 ≡ true) (p : Platform)
    (clock : ℕ → ℕ) where
  delete_view :
      (key j : Text) (id : ℕ) (g : Goctopus S)
      → view (delete_msg_by_id st p key id g).1.storage j ≡ (
          if decide (Text-discrete key j)
          then without id (view g.storage key)
          else view g.storage j)
  unfolding delete_msg_by_id
  delete_view key j id g =
      ground (arith, law.delete_message_view key j id g.storage, deletes key id g.storage)

  sweep_queue_view :
      (key j : Text) (q : List Message) (n : ℕ) (g : Goctopus S)
      → view (sweep_queue st p clock key q n g).1.storage j ≡ (
          if decide (Text-discrete key j)
          then purged p clock q (view g.storage key)
          else view g.storage j)
  unfolding sweep_queue purged
  sweep_queue_view key j [] n g = ground arith
  sweep_queue_view key j (m ∷ q) n g = elim (Bool-cases (is_expired p (clock m.id) m)) [
    | inl e ↦
        let g' = (delete_msg_by_id st p key m.id g).1 in
        rw e (
          ground (
            arith,
            sweep_queue_view key j q (n + 1) g',
            delete_view key j m.id g,
            delete_view key key m.id g,
          ))
    | inr e ↦ ground (arith, sweep_queue_view key j q n g)
  ]

  delete_metrics :
      (key : Text) (id : ℕ) (g : Goctopus S)
      → (delete_msg_by_id st p key id g).1.metrics ≡ g.metrics
  unfolding delete_msg_by_id
  delete_metrics key id g = refl

  sweep_queue_count :
      (key : Text) (q : List Message) (n : ℕ) (g : Goctopus S)
      → ((sweep_queue st p clock key q n g).0 ≡ n + expired_count p clock q)
        × ((sweep_queue st p clock key q n g).1.metrics ≡ g.metrics)
  unfolding sweep_queue expired_count
  sweep_queue_count key [] n g = (omega arith, refl)
  sweep_queue_count key (m ∷ q) n g = ground (
    arith,
    sweep_queue_count key q (n + 1) (delete_msg_by_id st p key m.id g).1,
    sweep_queue_count key q n g,
    delete_metrics key m.id g,
  )

  count_expired_lem :
      (r : ℕ × Goctopus S)
      → ((count_expired st p clock r).storage ≡ r.1.storage)
        × ((count_expired st p clock r).metrics.expired ≡ r.1.metrics.expired + r.0)
  unfolding count_expired
  count_expired_lem (n, g) = ground arith

  same_view :
      (key j : Text) (g : Goctopus S)
      → Distinct (ids (view g.storage key))
      → let s = (st.get_queue key g.storage).1 in
        (if decide (Text-discrete key j)
          then purged p clock (view g.storage key) (view s key)
          else view s j)
        ≡ (if decide (Text-discrete key j)
            then unexpired p clock (view g.storage key)
            else view g.storage j)
  same_view key j g d = rw (
    law.get_queue_view key key g.storage,
    law.get_queue_view key j g.storage,
    purged-unexpired p clock (view g.storage key) d,
  )

  -- Where the storage keeps to the laws of its interface, answers and makes its deletions, and the
  -- ids of a key's queue are distinct, a sweep of the key leaves in its queue the messages that are
  -- not expired, all of them and in their order; it changes no other queue, and counts what it
  -- removed.
  pub sweep_key_view :
      (key : Text) (g : Goctopus S)
      → (st.get_queue key g.storage).0 ≢ none
      → Distinct (ids (view g.storage key))
      → let g' = sweep_key st p clock key g in
        ((j : Text)
          → view g'.storage j ≡ (
              if decide (Text-discrete key j)
              then unexpired p clock (view g.storage key)
              else view g.storage j))
        × (g'.metrics.expired ≡ g.metrics.expired + expired_count p clock (view g.storage key))
  unfolding sweep_key
  sweep_key_view key g answered d =
      let q = view g.storage key in
      let g' = record g { storage = (st.get_queue key g.storage).1 } in
      let e : (st.get_queue key g.storage).0 ≡ some q =
        ground (arith, law.get_queue_result key g.storage) in
      let swept = sweep_queue st p clock key q 0 g' in
      let counted = count_expired_lem swept in
      rw e (
        (λ j. ap (λ s. view s j) counted.0 ∙ sweep_queue_view key j q 0 g' ∙ same_view key j g d),
        ground (arith, counted.1, sweep_queue_count key q 0 g'),
      )

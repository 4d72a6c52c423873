-- ===== src/Storage/Memory/Tidy.antt =====
-- The invariant of the memory storage: one entry for a key, no empty queue, no id twice in a queue.
use goctopus.Prelude.{
  Bool-cases, decide, Text, Text-discrete, has, Distinct, ℕ, ◌≡◌, refl, ◌≢◌, ◌↔◌, inl, inr, true,
  not, ◌&&◌, ◌||◌, List, [], ◌∷◌, arith, text_key, nat_key,
}
use goctopus.Prelude.GoMap.{lookup, insert, delete}
use goctopus.Message.{Message}
use goctopus.Storage.Queue.{upsert, without, holds, ids, upsert-Distinct, without-Distinct}
use goctopus.Storage.Memory.{
  MemoryStorage, queue_of, init, delete_queue, add_message, store_rest, delete_message, keys_of,
}

abbrev pub IsTidyQueue : List Message → Type 0
IsTidyQueue q = (q ≢ []) × Distinct (ids q)

-- By recursion on the entries.
abbrev pub AllTidy : MemoryStorage → Type 0
AllTidy [] = Unit
AllTidy ((k, q) ∷ s) = IsTidyQueue q × AllTidy s

pub record IsTidy (s : MemoryStorage) : Type 0 where
  pub single : Distinct (keys_of s)
  pub tidy : AllTidy s

has-keys_of-insert :
    (k j : Text) (q : List Message) (s : MemoryStorage)
    → has j (keys_of (insert k q s)) ≡ (decide (Text-discrete k j) || has j (keys_of s))
unfolding keys_of has insert
has-keys_of-insert k j q [] = ground arith
has-keys_of-insert k j q ((i, r) ∷ s) = ground (arith, has-keys_of-insert k j q s)

has-keys_of-delete :
    (k j : Text) (s : MemoryStorage)
    → has j (keys_of (delete k s)) ≡ (not (decide (Text-discrete k j)) && has j (keys_of s))
unfolding keys_of has delete
has-keys_of-delete k j [] = ground arith
has-keys_of-delete k j ((i, r) ∷ s) = ground (arith, has-keys_of-delete k j s)

insert-IsTidy :
    (k : Text) (q : List Message) (s : MemoryStorage)
    → IsTidyQueue q
    → IsTidy s
    → IsTidy (insert k q s)
unfolding keys_of insert has
insert-IsTidy k q [] t v = record { single = (refl, tt); tidy = (t, tt) }
insert-IsTidy k q ((i, r) ∷ s) t v =
    let rest = insert-IsTidy k q s t (record { single = v.single.1; tidy = v.tidy.1 }) in
    ground (arith, has-keys_of-insert k i q s, rest.single, rest.tidy)

delete-IsTidy : (k : Text) (s : MemoryStorage) → IsTidy s → IsTidy (delete k s)
unfolding keys_of delete has
delete-IsTidy k [] v = v
delete-IsTidy k ((i, r) ∷ s) v =
    let rest = delete-IsTidy k s (record { single = v.single.1; tidy = v.tidy.1 }) in
    ground (arith, has-keys_of-delete k i s, rest.single, rest.tidy)

pub queue_of-Distinct : (k : Text) (s : MemoryStorage) → AllTidy s → Distinct (ids (queue_of s k))
unfolding queue_of lookup ids
queue_of-Distinct k [] v = tt
queue_of-Distinct k ((i, r) ∷ s) v = ground (arith, queue_of-Distinct k s v.1)

upsert-ne-nil : (m : Message) (q : List Message) → upsert m q ≢ []
unfolding upsert
upsert-ne-nil m [] = ground arith
upsert-ne-nil m (x ∷ xs) = ground arith

pub init-IsTidy : IsTidy init
unfolding init keys_of
init-IsTidy = record { single = tt; tidy = tt }

pub add_message-IsTidy :
    (k : Text) (m : Message) (s : MemoryStorage) → IsTidy s → IsTidy (add_message k m s).1
unfolding add_message
add_message-IsTidy k m s v =
    insert-IsTidy k (upsert m (queue_of s k)) s
      (upsert-ne-nil m (queue_of s k), upsert-Distinct m _ (queue_of-Distinct k s v.tidy)) v

store_rest-IsTidy :
    (k : Text) (q : List Message) (s : MemoryStorage)
    → Distinct (ids q)
    → IsTidy s
    → IsTidy (store_rest k q s)
unfolding store_rest
store_rest-IsTidy k [] s d v = delete-IsTidy k s v
store_rest-IsTidy k (x ∷ xs) s d v = insert-IsTidy k (x ∷ xs) s ((λ e. cc), d) v

pub delete_message-IsTidy :
    (k : Text) (id : ℕ) (s : MemoryStorage) → IsTidy s → IsTidy (delete_message k id s).1
unfolding delete_message
delete_message-IsTidy k id s v = elim (Bool-cases (holds id (queue_of s k))) [
  | inl e ↦ rw (e) (
      store_rest-IsTidy k (without id (queue_of s k)) s
        (without-Distinct id _ (queue_of-Distinct k s v.tidy)) v)
  | inr e ↦ rw (e) v
]

pub delete_queue-IsTidy : (k : Text) (s : MemoryStorage) → IsTidy s → IsTidy (delete_queue k s).1
unfolding delete_queue
delete_queue-IsTidy k s v = delete-IsTidy k s v

has-keys_of :
    (k : Text) (s : MemoryStorage) → AllTidy s → (has k (keys_of s) ≡ true) ↔ (queue_of s k ≢ [])
unfolding keys_of has queue_of lookup
has-keys_of k [] v = ground arith
has-keys_of k ((i, r) ∷ s) v = ground (arith, has-keys_of k s v.1)

-- The calls that change the storage, but for `SetQueue`, which the server never makes.
pub data Call : Type 0 where
  adds : Text → Message → Call
  deletes : Text → ℕ → Call
  clears : Text → Call

unfoldable pub run : MemoryStorage → List Call → MemoryStorage
unfolding add_message delete_message delete_queue
run s [] = s
run s (adds k m ∷ calls) = run (add_message k m s).1 calls
run s (deletes k id ∷ calls) = run (delete_message k id s).1 calls
run s (clears k ∷ calls) = run (delete_queue k s).1 calls

pub run-IsTidy : (s : MemoryStorage) (calls : List Call) → IsTidy s → IsTidy (run s calls)
unfolding run
run-IsTidy s [] v = v
run-IsTidy s (adds k m ∷ calls) v =
    run-IsTidy (add_message k m s).1 calls (add_message-IsTidy k m s v)
run-IsTidy s (deletes k id ∷ calls) v =
    run-IsTidy (delete_message k id s).1 calls (delete_message-IsTidy k id s v)
run-IsTidy s (clears k ∷ calls) v =
    run-IsTidy (delete_queue k s).1 calls (delete_queue-IsTidy k s v)

-- After any calls on a new storage: `GetKeys` lists a key exactly while its queue holds a message,
-- it lists none twice, and no queue holds two messages with one id.
pub run-init :
    (calls : List Call)
    → let s = run init calls in
      ((k : Text) → (has k (keys_of s) ≡ true) ↔ (queue_of s k ≢ []))
      × Distinct (keys_of s)
      × ((k : Text) → Distinct (ids (queue_of s k)))
run-init calls =
    let v = run-IsTidy init calls init-IsTidy in
    (
      (λ k. has-keys_of k (run init calls) v.tidy),
      v.single,
      λ k. queue_of-Distinct k (run init calls) v.tidy,
    )

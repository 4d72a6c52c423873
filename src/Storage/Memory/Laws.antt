-- ===== src/Storage/Memory/Laws.antt =====
-- The memory storage as a storage in the sense of the interface.
use goctopus.Prelude.{
  if◌then◌else◌, decide, Text, Text-discrete, has, ℕ, ◌≡◌, refl, inr, false, ◌&&◌, none, some, List,
  [], ◌∷◌, arith, text_key, nat_key,
}
use goctopus.Prelude.GoMap.{lookup, insert, delete, lookup-insert, lookup-delete}
use goctopus.Message.{Message}
use goctopus.Storage.{Storage, IsStorage}
use goctopus.Storage.Queue.{upsert, without, without_absent}
use goctopus.Storage.Memory.{
  MemoryStorage, queue_of, set_queue, get_queue, delete_queue, add_message, store_rest,
  delete_message, keys_of, get_keys,
}

abbrev pub memory : Storage MemoryStorage
memory = record {
  set_queue = set_queue;
  get_queue = get_queue;
  delete_queue = delete_queue;
  add_message = add_message;
  delete_message = delete_message;
  notifies = false;
  get_keys = get_keys;
}

-- What an entry holds after a write or a removal.
pub queue_of-insert :
    (k j : Text) (q : List Message) (s : MemoryStorage)
    → queue_of (insert k q s) j ≡ (if decide (Text-discrete k j) then q else queue_of s j)
unfolding queue_of
queue_of-insert k j q s = ground (arith, lookup-insert k j q s)

pub queue_of-delete :
    (k j : Text) (s : MemoryStorage)
    → queue_of (delete k s) j ≡ (if decide (Text-discrete k j) then [] else queue_of s j)
unfolding queue_of
queue_of-delete k j s = ground (arith, lookup-delete k j s)

pub delete_message_view :
    (k j : Text) (id : ℕ) (s : MemoryStorage)
    → queue_of (delete_message k id s).1 j ≡ (
        if decide (Text-discrete k j) && (delete_message k id s).0
        then without id (queue_of s k)
        else queue_of s j)
unfolding delete_message store_rest
delete_message_view k j id s = ground (
  arith,
  queue_of-insert k j (without id (queue_of s k)) s,
  queue_of-delete k j s,
  without_absent id (queue_of s k),
)

keys_of-absent : (j : Text) (s : MemoryStorage) → has j (keys_of s) ≡ false → lookup j s ≡ none
unfolding keys_of has lookup
keys_of-absent j [] h = refl
keys_of-absent j ((k, q) ∷ s) h = ground (arith, keys_of-absent j s)

get_keys_result :
    (s : MemoryStorage) (keys : List Text) (j : Text)
    → (get_keys s).0 ≡ some keys
    → has j keys ≡ false
    → queue_of s j ≡ []
unfolding get_keys queue_of
get_keys_result s keys j e h = ground (arith, keys_of-absent j s)

-- The laws of the interface, filled by the memory storage's methods.
pub memory-IsStorage : IsStorage memory queue_of
unfolding get_queue get_keys add_message delete_queue
memory-IsStorage = record {
  get_queue_view = λ k j s. refl;
  get_queue_result = λ k s. inr refl;
  get_keys_view = λ j s. refl;
  get_keys_result = get_keys_result;
  add_message_view = λ k j m s. ground (arith, queue_of-insert k j (upsert m (queue_of s k)) s);
  delete_message_view = delete_message_view;
  delete_queue_view = λ k j s. ground (arith, queue_of-delete k j s);
}

-- ===== src/Storage/Memory.antt =====
-- src/memory_storage.go: the storage in memory. Every method holds the mutex throughout, so each is
-- one step.
pub mod Laws
pub mod Tidy
pub mod Refinement
use goctopus.Prelude.{
  if◌then◌else◌, Text, ℕ, Bool, true, Option, none, some, List, [], ◌∷◌, text_key,
}
use goctopus.Prelude.GoMap.{Map, lookup, insert, delete}
use goctopus.Message.{is_empty, Message}
use goctopus.Storage.Queue.{upsert, without, holds}

abbrev pub MemoryStorage : Type 0
MemoryStorage = Map Text (List Message)

-- `s.storage[key]`, nil where there is no entry.
unfoldable pub queue_of : MemoryStorage → Text → List Message
queue_of s key = elim (lookup key s) [ none ↦ [] | some q ↦ q ]

unfoldable pub init : MemoryStorage
init = []

unfoldable pub set_queue : Text → List Message → MemoryStorage → Bool × MemoryStorage
set_queue key queue s = (true, insert key queue s)

unfoldable pub get_queue : Text → MemoryStorage → Option (List Message) × MemoryStorage
unfolding queue_of
get_queue key s = (some (queue_of s key), s)

unfoldable pub delete_queue : Text → MemoryStorage → Bool × MemoryStorage
delete_queue key s = (true, delete key s)

unfoldable pub add_message : Text → Message → MemoryStorage → Bool × MemoryStorage
unfolding queue_of upsert
add_message key m s = (true, insert key (upsert m (queue_of s key)) s)

-- The rest of `DeleteMessage`, once the queue without the message is known.
unfoldable pub store_rest : Text → List Message → MemoryStorage → MemoryStorage
store_rest key queue s = if is_empty queue then delete key s else insert key queue s

unfoldable pub delete_message : Text → ℕ → MemoryStorage → Bool × MemoryStorage
unfolding queue_of store_rest without holds
delete_message key id s = (
  true,
  (if holds id (queue_of s key) then store_rest key (without id (queue_of s key)) s else s),
)

unfoldable pub keys_of : MemoryStorage → List Text
keys_of [] = []
keys_of ((k, q) ∷ s) = k ∷ keys_of s

unfoldable pub get_keys : MemoryStorage → Option (List Text) × MemoryStorage
unfolding keys_of
get_keys s = (some (keys_of s), s)

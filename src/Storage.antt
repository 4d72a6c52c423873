-- ===== src/Storage.antt =====
-- src/storage.go: the interface that a storage backend implements, and what its clients rely on.
pub mod Queue
pub mod Memory
pub mod Redis
use goctopus.Prelude.{
  if◌then◌else◌, decide, Text, Text-discrete, has, ℕ, ◌≡◌, ◌⊎◌, Bool, false, ◌&&◌, Option, none,
  some, List, [], text_key,
}
use goctopus.Message.{Message}
use Queue.{upsert, without}

-- The methods, each with the state that it leaves. `none` and `false` stand for a non-nil error.
pub record Storage (S : Type 0) : Type 0 where
  pub set_queue : Text → List Message → S → Bool × S
  pub get_queue : Text → S → Option (List Message) × S
  pub delete_queue : Text → S → Bool × S
  pub add_message : Text → Message → S → Bool × S
  pub delete_message : Text → ℕ → S → Bool × S
  -- whether the backend is a Notifier too
  pub notifies : Bool
  pub get_keys : S → Option (List Text) × S

-- A call that fails leaves every queue as it was; one that succeeds changes one queue, as stated.
-- `view` gives the queue of a key.
pub record IsStorage {S : Type 0} (st : Storage S) (view : S → Text → List Message) : Type 0 where
  pub get_queue_view : (k j : Text) (s : S) → view (st.get_queue k s).1 j ≡ view s j
  pub get_queue_result :
      (k : Text) (s : S) → ((st.get_queue k s).0 ≡ none) ⊎ ((st.get_queue k s).0 ≡ some (view s k))
  pub get_keys_view : (j : Text) (s : S) → view (st.get_keys s).1 j ≡ view s j
  pub get_keys_result :
      (s : S) (keys : List Text) (j : Text)
      → (st.get_keys s).0 ≡ some keys
      → has j keys ≡ false
      → view s j ≡ []
  pub add_message_view :
      (k j : Text) (m : Message) (s : S)
      → view (st.add_message k m s).1 j ≡ (
          if decide (Text-discrete k j) && (st.add_message k m s).0
          then upsert m (view s k)
          else view s j)
  pub delete_message_view :
      (k j : Text) (id : ℕ) (s : S)
      → view (st.delete_message k id s).1 j ≡ (
          if decide (Text-discrete k j) && (st.delete_message k id s).0
          then without id (view s k)
          else view s j)
  pub delete_queue_view :
      (k j : Text) (s : S)
      → view (st.delete_queue k s).1 j
        ≡ (if decide (Text-discrete k j) && (st.delete_queue k s).0 then [] else view s j)

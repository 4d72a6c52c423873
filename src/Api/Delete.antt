-- ===== src/Api/Delete.antt =====
-- What DELETE removes.
use goctopus.Constants.{query_key, query_id}
use goctopus.Storage.Queue.{without}
use goctopus.Prelude.{
  if◌then◌else◌, decide, Text, Text-discrete, has, ℕ, ◌≡◌, refl, ◌≢◌, ◌⊎◌, true, none, some, List,
  [], ◌∷◌, arith, text_key,
}
use goctopus.Message.{Message, Platform}
use goctopus.Config.{listed, Config}
use goctopus.Request.{get_text, Request, status}
use goctopus.Storage.{Storage, IsStorage}
use goctopus.Engine.{delete_msg_by_id, delete_msg_queue, Goctopus}
use goctopus.Api.{delete_queues, delete_one, handle_delete, Moment}

module _ {S : Type 0} (st : Storage S) (view : S → Text → List Message) (law : IsStorage st view)
    (p : Platform) (cfg : Config) (t : Moment) (r : Request) where
  abbrev asked_key : Text
  asked_key = get_text query_key r.query

  abbrev asked_id : Text
  asked_id = get_text query_id r.query

  delete_queues_view :
      (deletes : (k : Text) (s : S) → (st.delete_queue k s).0 ≡ true) (keys : List Text) (j : Text)
      (g : Goctopus S)
      → view (delete_queues st p cfg t keys g).storage j
        ≡ (if has j keys then [] else view g.storage j)
  unfolding delete_queues delete_msg_queue has
  delete_queues_view deletes [] j g = refl
  delete_queues_view deletes (k ∷ keys) j g = ground (
    arith,
    delete_queues_view deletes keys j (delete_msg_queue st p k g),
    law.delete_queue_view k j g.storage,
    deletes k g.storage,
  )

  -- Without a key and an id, DELETE empties every queue, where the storage lists its keys and its
  -- deletions succeed.
  pub handle_delete_everything :
      (g : Goctopus S) (keys : List Text)
      → ((k : Text) (s : S) → (st.delete_queue k s).0 ≡ true)
      → (st.get_keys g.storage).0 ≡ some keys
      → get_text query_key r.query ≡ []
      → get_text query_id r.query ≡ []
      → let (response, g') = handle_delete st p cfg t r g in
        (response ≡ status 200) × ((j : Text) → view g'.storage j ≡ [])
  unfolding handle_delete
  handle_delete_everything g keys deletes listed no_key no_id =
      rw (no_key, no_id, listed)
        (
          refl,
          λ j. ground (
            arith,
            delete_queues_view deletes keys j (record g { storage = (st.get_keys g.storage).1 }),
            law.get_keys_result g.storage keys j listed,
            law.get_keys_view j g.storage,
          ),
        )

  -- An id without a key, or one that is no UUID, is answered 400 and changes nothing.
  pub handle_delete_malformed :
      (g : Goctopus S)
      → get_text query_id r.query ≢ []
      → (get_text query_key r.query ≡ []) ⊎ (p.parse_uuid (get_text query_id r.query) ≡ none)
      → handle_delete st p cfg t r g ≡ (status 400, g)
  unfolding handle_delete delete_one
  handle_delete_malformed g some_id bad = ground arith

  delete_one_view :
      (deletes : (k : Text) (id : ℕ) (s : S) → (st.delete_message k id s).0 ≡ true) (key : Text)
      (id : ℕ) (g : Goctopus S)
      → let (response, g') = delete_one st p cfg t key (some id) g in
        (response ≡ status 200)
        × ((j : Text)
            → view g'.storage j ≡ (
                if decide (Text-discrete key j)
                then without id (view g.storage key)
                else view g.storage j))
  unfolding delete_one delete_msg_by_id
  delete_one_view deletes key id g = (
    ground (arith, deletes key id g.storage),
    λ j. ground (arith, law.delete_message_view key j id g.storage, deletes key id g.storage),
  )

  -- With a key and an id that parses, DELETE takes the message with that id out of the key's
  -- queue, where the storage's deletions succeed; every other queue stays.
  pub handle_delete_message :
      (g : Goctopus S) (id : ℕ)
      → ((k : Text) (id : ℕ) (s : S) → (st.delete_message k id s).0 ≡ true)
      → get_text query_key r.query ≢ []
      → get_text query_id r.query ≢ []
      → p.parse_uuid (get_text query_id r.query) ≡ some id
      → let key = get_text query_key r.query in
        let (response, g') = handle_delete st p cfg t r g in
        (response ≡ status 200)
        × ((j : Text)
            → view g'.storage j ≡ (
                if decide (Text-discrete key j)
                then without id (view g.storage key)
                else view g.storage j))
  unfolding handle_delete
  handle_delete_message g id deletes some_key some_id parsed =
      let found : handle_delete st p cfg t r g
          ≡ delete_one st p cfg t (get_text query_key r.query) (some id) g =
        ground arith in
      rw found (delete_one_view deletes (get_text query_key r.query) id g)

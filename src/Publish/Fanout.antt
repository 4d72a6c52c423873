-- ===== src/Publish/Fanout.antt =====
-- What the task of a publish leaves in the queues.
use goctopus.Prelude.{
  if◌then◌else◌, decide, Text, Text-discrete, has, Distinct, ◌≡◌, refl, ap, ◌∙◌, true, List, [],
  ◌∷◌, arith, text_key, nat_key,
}
use goctopus.Message.{Message, Platform}
use goctopus.Storage.{Storage, IsStorage}
use goctopus.Storage.Queue.{upsert, upsert_idem}
use goctopus.Engine.{queue_message, notify, Goctopus}
use goctopus.Delivery.Flushes.{send_messages-view}
use goctopus.Publish.{publish_to, publish, Visit}

module _ {S : Type 0} (st : Storage S) (view : S → Text → List Message) (law : IsStorage st view)
    (adds : (k : Text) (m : Message) (s : S) → (st.add_message k m s).0 ≡ true) (p : Platform)
    (m : Message) where
  notify-storage : (key : Text) (g : Goctopus S) → (notify st p key g).storage ≡ g.storage
  unfolding notify
  notify-storage key g = ground arith

  publish_to_view :
      (visits : Text → Visit) (key j : Text) (g : Goctopus S)
      → view (publish_to st p visits m key g).storage j ≡ (
          if decide (Text-discrete key j)
          then upsert (record m { key = key }) (view g.storage key)
          else view g.storage j)
  unfolding publish_to queue_message
  publish_to_view visits key j g =
      send_messages-view st view law p key (visits key).flush _ j
      ∙ ap (λ s. view s j) (notify-storage key _)
      ∙ ground (
        arith,
        law.add_message_view key j (record m { key = key }) g.storage,
        adds key (record m { key = key }) g.storage,
      )

  -- Where the storage's additions succeed, a publish to distinct keys puts the message, once,
  -- into the queue of each of them, under that key: it replaces a message with the same id
  -- where one stands there, and comes last otherwise. Every other queue stays.
  pub publish_view :
      (visits : Text → Visit) (keys : List Text) (j : Text) (g : Goctopus S)
      → Distinct keys
      → view (publish st p visits m keys g).storage j ≡ (
          if has j keys then upsert (record m { key = j }) (view g.storage j) else view g.storage j)
  unfolding publish has
  publish_view visits [] j g d = refl
  publish_view visits (key ∷ keys) j g d = ground (
    arith,
    publish_view visits keys j (publish_to st p visits m key g) d.1,
    publish_to_view visits key j g,
  )

  -- To publish the message to the same distinct keys again changes no queue, where the
  -- storage's additions succeed.
  pub publish_again :
      (visits later : Text → Visit) (keys : List Text) (j : Text) (g : Goctopus S)
      → Distinct keys
      → view (publish st p later m keys (publish st p visits m keys g)).storage j
        ≡ view (publish st p visits m keys g).storage j
  publish_again visits later keys j g d = ground (
    arith,
    publish_view later keys j (publish st p visits m keys g) d,
    publish_view visits keys j g d,
    upsert_idem (record m { key = j }) (view g.storage j),
  )

-- ===== src/Publish.antt =====
-- src/server.go, the task that `handlePost` schedules: a message goes to each of its targets.
pub mod Fanout
use goctopus.Prelude.{Text, ℕ, List, [], ◌∷◌, text_key}
use goctopus.Message.{Message, Platform}
use goctopus.Storage.{Storage}
use goctopus.History.{add}
use goctopus.Engine.{queue_message, notify, Goctopus}
use goctopus.Delivery.{send_messages, Flush}

-- What the task meets at a target: the time at which the history is written, and the flush.
pub record Visit : Type 0 where
  pub at : ℕ
  pub flush : Flush

module _ {S : Type 0} (st : Storage S) (p : Platform) (visits : Text → Visit) (m : Message) where
  -- The body of the loop.
  unfoldable pub publish_to : Text → Goctopus S → Goctopus S
  unfolding queue_message
  publish_to key g =
      let mk = record m { key = key } in
      let queued = queue_message st p mk g in
      let recorded = record queued { history = add key mk (visits key).at queued.history } in
      send_messages st p (visits key).flush key (notify st p key recorded)

  unfoldable pub publish : List Text → Goctopus S → Goctopus S
  unfolding publish_to
  publish [] g = g
  publish (key ∷ keys) g = publish keys (publish_to key g)

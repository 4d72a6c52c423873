-- ===== src/Interleaving/Losses.antt =====
-- By which accesses a queue loses a message.
use goctopus.Interleaving.Justified.{is_acked}
use goctopus.Storage.Queue.{upsert, find, ids, find-upsert, find-without, upsert-Distinct}
use goctopus.Engine.{queue_message, delete_msg_by_id}
use goctopus.Config.{Config}
use goctopus.Storage.{Storage, IsStorage}
use goctopus.Message.{is_expired, Message, Platform}
use goctopus.Prelude.{Text, Distinct, ℕ, ◌≡◌, ◌⊎◌, true, none, some, List, arith, text_key, nat_key}
use goctopus.Interleaving.{advance, Pc, Access, World, taken, doomed}
use goctopus.Interleaving.Runs.{
  Event, System, Moves, Runs, schedules, sweeps_out, receives, accesses, enqueues, records,
  notifies, performs,
}
use goctopus.Server.Losses.{Loses}

module _ {S : Type 0} (st : Storage S) (p : Platform) (cfg : Config) (hash : Text → ℕ) where
  module _ (view : S → Text → List Message) (law : IsStorage st view) where
    -- A sweep of the key is about to delete a message with the id.
    abbrev Deletes : Pc → Text → ℕ → Message → Type 0
    Deletes pc key id m =
        (queue : List Message) × (removed : ℕ) × (pc ≡ doomed key m queue removed) × (m.id ≡ id)

    -- And it found that message expired.
    abbrev pub Dooms : Pc → Text → ℕ → Type 0
    Dooms pc key id = (m : Message) × Deletes pc key id m × (now : ℕ) × (is_expired p now m ≡ true)

    -- What a move must be for the queue of a key to lose the message with an id.
    abbrev pub Drops :
        {s t : System S} {new : List Event}
        → Moves st p cfg hash s t new
        → List Event
        → Text
        → ℕ
        → Type 0
    Drops {s} (accesses i e) trace key id =
        ((s.pcs i ≡ taken id key) × (is_acked id key trace ≡ true)) ⊎ Dooms (s.pcs i) key id
    Drops (performs step whole) trace key id = Loses st view law p cfg step key id
    Drops (schedules i k at_idle) trace key id = ⊥
    Drops (sweeps_out i k at_idle) trace key id = ⊥
    Drops (receives i cid m payload at_idle named) trace key id = ⊥
    Drops (enqueues m) trace key id = ⊥
    Drops (records k m at) trace key id = ⊥
    Drops (notifies k) trace key id = ⊥

    -- Over a storage that keeps to the interface, while no id stands twice in the queue of a key:
    -- if a message is posted under that key while a sweep is about to delete one with the same id
    -- that it found expired, and the storage takes the one and deletes for the other, then the
    -- new message stands in the queue before the deletion, and none with its id afterwards.
    pub doomed-repost :
        (e : Access) (w : World S) (m new : Message) (queue : List Message) (removed : ℕ)
        → Distinct (ids (view w.node.storage new.key))
        → new.id ≡ m.id
        → (st.add_message new.key new w.node.storage).0 ≡ true
        → (st.delete_message new.key m.id (st.add_message new.key new w.node.storage).1).0 ≡ true
        → let posted = record w { node = queue_message st p new w.node } in
          let after = (advance st p hash e (doomed new.key m queue removed) posted).0 in
          (find new.id (view posted.node.storage new.key) ≡ some new)
          × (find new.id (view after.node.storage new.key) ≡ none)
    unfolding advance queue_message delete_msg_by_id
    doomed-repost e w m new queue removed once same_id added deleted =
        let s = (st.add_message new.key new w.node.storage).1 in
        let stored : view s new.key ≡ upsert new (view w.node.storage new.key) =
          ground (arith, law.add_message_view new.key new.key new w.node.storage) in
        (
          rw stored (ground (arith, find-upsert new new.id (view w.node.storage new.key))),
          ground (
            arith,
            law.delete_message_view new.key new.key m.id s,
            find-without m.id new.id (view s new.key)
                (rw stored (upsert-Distinct new (view w.node.storage new.key) once)),
          ),
        )

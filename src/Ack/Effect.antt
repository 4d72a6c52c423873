-- ===== src/Ack/Effect.antt =====
-- What an acknowledgement changes, and what it does not.
use goctopus.Client.Inflight.{refuses}
use goctopus.Prelude.{
  if◌then◌else◌, decide, Text, Text-discrete, ℕ, ◌+◌, ◌≡◌, ◌≢◌, ite, Bool, true, false, ◌&&◌, none,
  some, List, [], ◌∷◌, ◌++◌, arith, ℕ_discrete, text_key, nat_key,
}
use goctopus.Prelude.GoMap.{lookup, lookup-delete}
use goctopus.Message.{Message, Platform}
use goctopus.Client.{take_inflight, text}
use goctopus.Storage.{Storage, IsStorage}
use goctopus.Storage.Queue.{without}
use goctopus.Engine.{Goctopus}
use goctopus.Delivery.{deliver, Flush}
use goctopus.Delivery.Pass.{delivered, deliver-clients}
use goctopus.Ack.{acknowledged, ack_id, handle_ack}

module _ {S : Type 0} (st : Storage S) (view : S → Text → List Message) (law : IsStorage st view)
    (p : Platform) (cid id : ℕ) (payload : Text) (named : acknowledged p payload ≡ some id) where
  handle_ack-named : (g : Goctopus S) → handle_ack st p cid payload g ≡ ack_id st p cid id g
  unfolding handle_ack
  handle_ack-named g = rw (named, handle_ack)

  -- The acknowledgement of a message in flight asks the storage to delete it under the key by
  -- which it was sent: if that succeeds, it is gone from that key's queue, and every other
  -- queue stays. The message is in flight at the client no more, and no other client changes.
  pub handle_ack-inflight :
      (g : Goctopus S) (key : Text)
      → lookup id (g.clients cid).inflight ≡ some key
      → let g' = handle_ack st p cid payload g in
        ((j : Text)
          → view g'.storage j ≡ (
              if decide (Text-discrete key j) && (st.delete_message key id g.storage).0
              then without id (view g.storage key)
              else view g.storage j))
        × (lookup id (g'.clients cid).inflight ≡ none)
        × ((x : ℕ) → g'.clients x ≡ ite (ℕ_discrete cid x) (g'.clients cid) (g.clients x))
  unfolding ack_id take_inflight
  handle_ack-inflight g key e = rw (handle_ack-named g) (
    (λ j. ground (arith, law.delete_message_view key j id g.storage)),
    ground (arith, lookup-delete id id (g.clients cid).inflight),
    λ x. ground arith,
  )

  -- The acknowledgement of a message that is not in flight at the client changes no queue and no
  -- client, but is counted as a delivery.
  pub handle_ack-unknown :
      (g : Goctopus S)
      → lookup id (g.clients cid).inflight ≡ none
      → let g' = handle_ack st p cid payload g in
        (g'.storage ≡ g.storage)
        × ((x : ℕ) → g'.clients x ≡ g.clients x)
        × (g'.metrics.delivered ≡ g.metrics.delivered + 1)
  unfolding ack_id take_inflight
  handle_ack-unknown g e = rw (handle_ack-named g) (ground arith, (λ x. ground arith), ground arith)

  -- The client after its acknowledgement is open, has the same frames, and does not refuse the id.
  acked_client :
      (g : Goctopus S) (key : Text)
      → lookup id (g.clients cid).inflight ≡ some key
      → let c = (handle_ack st p cid payload g).clients cid in
        (c.closed ≡ (g.clients cid).closed)
        × (c.written ≡ (g.clients cid).written)
        × (lookup id c.inflight ≡ none)
  unfolding ack_id take_inflight
  acked_client g key e =
      rw (handle_ack-named g)
        (ground arith, ground arith, ground (arith, lookup-delete id id (g.clients cid).inflight))

  written_again :
      (g : Goctopus S) (other : Text) (m : Message) (again : Text) (succeeds : Bool) (key : Text)
      → lookup id (g.clients cid).inflight ≡ some key
      → (g.clients cid).closed ≡ false
      → m.id ≡ id
      → succeeds ≡ true
      → let c = (handle_ack st p cid payload g).clients cid in
        (ite (ℕ_discrete cid cid) (delivered other m again succeeds c) c).written
        ≡ (g.clients cid).written ++ text again ∷ []
  unfolding delivered refuses
  written_again g other m again succeeds key e open_client same wrote =
      ground (arith, acked_client g key e)

  -- A message that is in flight at an open client under one key is acknowledged. Every other
  -- key's queue that has a copy keeps it, and an attempt to send that copy to the client, if
  -- the write succeeds, writes it to the client once more.
  pub handle_ack_second_copy :
      (g : Goctopus S) (key other : Text) (m : Message) (f : Flush) (data_again : Text)
      → lookup id (g.clients cid).inflight ≡ some key
      → (g.clients cid).closed ≡ false
      → key ≢ other
      → m.id ≡ id
      → f.writes cid id ≡ true
      → let g' = handle_ack st p cid payload g in
        (view g'.storage other ≡ view g.storage other)
        × (((deliver p f other m data_again cid g').clients cid).written
            ≡ (g.clients cid).written ++ text data_again ∷ [])
  handle_ack_second_copy g key other m f data_again e open_client ne same wrote =
      let queues = (handle_ack-inflight g key e).0 in
      let g' = handle_ack st p cid payload g in
      (
        ground (arith, queues other),
        rw (deliver-clients p f other m data_again cid cid g') (
            written_again g other m data_again (f.writes cid m.id) key e open_client same
              (rw same wrote)),
      )

-- ===== src/Ack.antt =====
-- src/client.go, `handleAck`: a client acknowledges a message.
pub mod Effect
use goctopus.Prelude.{Text, codes, ℕ, ◌+◌, Option, none, some, text_key, nat_key}
use goctopus.Prelude.GoMap.{Map, lookup}
use goctopus.Message.{Value, Platform, text}
use goctopus.Client.{take_inflight, text}
use goctopus.Storage.{Storage}
use goctopus.Engine.{store, delete_msg_by_id, Goctopus}

-- `data["id"].(string)`
unfoldable pub id_text : Map Text Value → Option Text
id_text fields = elim (lookup (codes "id") fields) [ some (Value.text s) ↦ some s | _ ↦ none ]

-- The id that an acknowledgement names, if it names one.
unfoldable pub acknowledged : Platform → Text → Option ℕ
unfolding id_text
acknowledged p payload = elim (p.unmarshal_object payload) [
  | none ↦ none
  | some fields ↦ elim (id_text fields) [ none ↦ none | some s ↦ p.parse_uuid s ]
]

module _ {S : Type 0} (st : Storage S) (p : Platform) where
  unfoldable pub count_delivered : Goctopus S → Goctopus S
  count_delivered g = record g {
    metrics = record g.metrics { delivered = g.metrics.delivered + 1 };
  }

  unfoldable pub remove_taken : ℕ → Option Text → Goctopus S → Goctopus S
  unfolding delete_msg_by_id
  remove_taken id none g = g
  remove_taken id (some key) g = (delete_msg_by_id st p key id g).1

  unfoldable pub ack_id : ℕ → ℕ → Goctopus S → Goctopus S
  unfolding remove_taken count_delivered store
  ack_id cid id g =
      let (taken, c) = take_inflight id (g.clients cid) in
      count_delivered (remove_taken id taken (record g { clients = store g.clients cid c }))

  unfoldable pub handle_ack : ℕ → Text → Goctopus S → Goctopus S
  handle_ack cid payload g = elim (acknowledged p payload) [ none ↦ g | some id ↦ ack_id cid id g ]

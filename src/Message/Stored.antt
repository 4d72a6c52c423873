-- ===== src/Message/Stored.antt =====
-- What survives the storage form of a message.
use goctopus.Message.{encode, decode_message, Message, StoredMessage, Platform}
use goctopus.Prelude.{Text, ℕ, ◌≡◌, some, [], arith}

-- The standard library's JSON reads back what it wrote, and an id is read off its text.
pub record IsCodec (p : Platform) : Type 0 where
  pub reads_back :
      (s : StoredMessage) (b : Text) → p.marshal_stored s ≡ some b → p.unmarshal_stored b ≡ some s
  pub one_id : (i j : ℕ) → p.uuid_text i ≡ p.uuid_text j → i ≡ j

-- The parts of a message that the storage form keeps: `keys` and `message_id` are dropped.
abbrev pub kept : Message → Message
kept m = record m { keys = []; message_id = [] }

pub decode_message-encode :
    (p : Platform) (m : Message) (b : Text)
    → IsCodec p
    → encode p m ≡ some b
    → decode_message p b ≡ some (kept m)
unfolding encode decode_message
decode_message-encode p m b c e = ground (arith, c.reads_back _ b e)

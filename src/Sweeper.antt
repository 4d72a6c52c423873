-- ===== src/Sweeper.antt =====
-- src/engine.go, `sweepKey` and a round of `sweepExpired`. Every deletion is one step of the storage.
pub mod Removal
use goctopus.Prelude.{
  ◌==◌, if◌then◌else◌, Text, ℕ, ◌+◌, Option, none, some, List, [], ◌∷◌, text_key,
}
use goctopus.Message.{is_expired, Message, Platform}
use goctopus.Storage.{Storage}
use goctopus.History.{purge}
use goctopus.Engine.{delete_msg_by_id, Goctopus}

module _ {S : Type 0} (st : Storage S) (p : Platform) (clock : ℕ → ℕ) where
  -- The loop of `sweepKey`, with its counter; `clock` is the time at which it looks at a message.
  unfoldable pub sweep_queue : Text → List Message → ℕ → Goctopus S → ℕ × Goctopus S
  sweep_queue key [] removed g = (removed, g)
  sweep_queue key (m ∷ queue) removed g =
      let expired = is_expired p (clock m.id) m in
      sweep_queue key queue (if expired then removed + 1 else removed)
        (if expired then (delete_msg_by_id st p key m.id g).1 else g)

  unfoldable pub count_expired : ℕ × Goctopus S → Goctopus S
  count_expired (removed, g) =
      if removed == 0
      then g
      else record g { metrics = record g.metrics { expired = g.metrics.expired + removed } }

  unfoldable pub sweep_reply : Text → Option (List Message) → Goctopus S → Goctopus S
  unfolding sweep_queue count_expired
  sweep_reply key none g = g
  sweep_reply key (some queue) g = count_expired (sweep_queue key queue 0 g)

  unfoldable pub sweep_key : Text → Goctopus S → Goctopus S
  unfolding sweep_reply
  sweep_key key g =
      let (reply, s) = st.get_queue key g.storage in
      sweep_reply key reply (record g { storage = s })

  unfoldable pub sweep_keys : List Text → Goctopus S → Goctopus S
  unfolding sweep_key
  sweep_keys [] g = g
  sweep_keys (key ∷ keys) g = sweep_keys keys (sweep_key key g)

  unfoldable pub sweep_all : ℕ → Option (List Text) → Goctopus S → Goctopus S
  unfolding sweep_keys purge
  sweep_all now none g = g
  sweep_all now (some keys) g =
      let g' = sweep_keys keys g in record g' { history = purge now g'.history }

  -- One tick of `sweepExpired`; `now` is the time at which the history is purged.
  unfoldable pub sweep_expired : ℕ → Goctopus S → Goctopus S
  unfolding sweep_all
  sweep_expired now g =
      let (keys, s) = st.get_keys g.storage in sweep_all now keys (record g { storage = s })

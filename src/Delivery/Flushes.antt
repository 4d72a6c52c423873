-- ===== src/Delivery/Flushes.antt =====
-- The guarantees of `sendMessages`, for any storage that keeps to the interface.
use goctopus.Client.{Client}
use goctopus.Delivery.Settled.{
  is_due, AllSettled, send_message_due, send_message_idle, send_queue-AllSettled,
  send_queue_settled, AllSettled-later,
}
use goctopus.Storage.{Storage, IsStorage}
use mathlib.Core.Path.{ap₂}
use goctopus.Prelude.{
  if◌then◌else◌, Bool-cases, Text, ℕ, ◌≤◌, ◌≡◌, refl, ◌∙◌, ◌≢◌, inl, inr, Option, none, some, List,
  [], ◌∷◌, arith, nat_key, text_key,
}
use goctopus.Message.{is_empty, Message, Platform}
use goctopus.Engine.{clients_for_key, Goctopus}
use goctopus.Delivery.{
  deliver, deliver_all, send_message, send_queue, send_reply, send_messages, Flush,
}

-- What the writes of a flush leave alone.
pub record SameBut {S : Type 0} (g g' : Goctopus S) : Type 0 where
  pub conns : g'.conns ≡ g.conns
  pub patterns : g'.patterns ≡ g.patterns
  pub storage : g'.storage ≡ g.storage

SameBut-refl : {S : Type 0} (g : Goctopus S) → SameBut g g
SameBut-refl g = record { conns = refl; patterns = refl; storage = refl }

SameBut-trans : {S : Type 0} {a b c : Goctopus S} → SameBut a b → SameBut b c → SameBut a c
SameBut-trans h k = record {
  conns = k.conns ∙ h.conns;
  patterns = k.patterns ∙ h.patterns;
  storage = k.storage ∙ h.storage;
}

module _ {S : Type 0} (p : Platform) (f : Flush) (key : Text) where
  deliver-SameBut :
      (m : Message) (payload : Text) (cid : ℕ) (g : Goctopus S)
      → SameBut g (deliver p f key m payload cid g)
  unfolding deliver
  deliver-SameBut m payload cid g = ground arith

  deliver_all-SameBut :
      (m : Message) (payload : Text) (cids : List ℕ) (g : Goctopus S)
      → SameBut g (deliver_all p f key m payload cids g)
  unfolding deliver_all
  deliver_all-SameBut m payload [] g = SameBut-refl g
  deliver_all-SameBut m payload (cid ∷ cids) g =
      SameBut-trans (deliver-SameBut m payload cid g)
        (deliver_all-SameBut m payload cids (deliver p f key m payload cid g))

  send_message-SameBut :
      (cids : List ℕ) (m : Message) (g : Goctopus S) → SameBut g (send_message p f key cids m g)
  send_message-SameBut cids m g = elim (Bool-cases (is_due p f.clock m)) [
    | inl due ↦
        let (payload, _, sent) = send_message_due p f key cids m g due in
        rw sent (deliver_all-SameBut m payload cids g)
    | inr idle ↦ rw (send_message_idle p f key cids m g idle) (SameBut-refl g)
  ]

  pub send_queue-SameBut :
      (cids : List ℕ) (queue : List Message) (g : Goctopus S)
      → SameBut g (send_queue p f key cids queue g)
  unfolding send_queue
  send_queue-SameBut cids [] g = SameBut-refl g
  send_queue-SameBut cids (m ∷ queue) g =
      SameBut-trans (send_message-SameBut cids m g)
        (send_queue-SameBut cids queue (send_message p f key cids m g))

module _ {S : Type 0} (st : Storage S) (view : S → Text → List Message) (law : IsStorage st view)
    (p : Platform) (key : Text) where
  -- The clients that a flush of the key writes to.
  abbrev pub receivers : Goctopus S → List ℕ
  receivers g = clients_for_key p key g.conns g.patterns

  abbrev pub fetched : Goctopus S → Goctopus S
  fetched g = record g { storage = (st.get_queue key g.storage).1 }

  nobody-AllSettled :
      (clock : ℕ → ℕ) (queue : List Message) (heap : ℕ → Client) → AllSettled p clock [] queue heap
  nobody-AllSettled clock [] heap = tt
  nobody-AllSettled clock (m ∷ queue) heap = (inr tt, nobody-AllSettled clock queue heap)

  abbrev pub SameEffect : Goctopus S → Goctopus S → Type 0
  SameEffect g g' =
      (g.clients ≡ g'.clients)
      × (g.metrics ≡ g'.metrics)
      × (g.conns ≡ g'.conns)
      × (g.patterns ≡ g'.patterns)

  flush_SameEffect :
      (f : Flush) (g : Goctopus S) (cids : List ℕ) (queue : List Message)
      → SameEffect
          (if is_empty cids then g else send_reply st p f key cids (some queue) (fetched g))
          (send_queue p f key cids queue (fetched g))
  unfolding send_reply
  flush_SameEffect f g [] queue =
      rw
        (send_queue_settled p f key [] queue (fetched g)
          (nobody-AllSettled f.clock queue g.clients))
        (refl, refl, refl, refl)
  flush_SameEffect f g (c ∷ cids) [] = (refl, refl, refl, refl)
  flush_SameEffect f g (c ∷ cids) (m ∷ queue) = (refl, refl, refl, refl)

  -- Where the storage answers, a flush is the loop over the queue.
  pub send_messages_answered :
      (f : Flush) (g : Goctopus S)
      → (st.get_queue key g.storage).0 ≡ some (view g.storage key)
      → SameEffect
          (send_messages st p f key g)
          (send_queue p f key (receivers g) (view g.storage key) (fetched g))
  unfolding send_messages
  send_messages_answered f g answered =
      rw answered (flush_SameEffect f g (receivers g) (view g.storage key))

  pub answer_of :
      (g : Goctopus S)
      → (st.get_queue key g.storage).0 ≢ none
      → (st.get_queue key g.storage).0 ≡ some (view g.storage key)
  answer_of g answered = ground (arith, law.get_queue_result key g.storage)

  -- After a flush whose storage answered, each message of the key's queue that was not expired and
  -- could be marshalled is in flight at each client of the key, unless that client is closed.
  pub send_messages-AllSettled :
      (f : Flush) (g : Goctopus S)
      → (st.get_queue key g.storage).0 ≢ none
      → AllSettled p f.clock (receivers g) (view g.storage key) (send_messages st p f key g).clients
  send_messages-AllSettled f g answered =
      rw ((send_messages_answered f g (answer_of g answered)).0)
        (send_queue-AllSettled p f key (receivers g) (view g.storage key) (fetched g))

  unanswered_SameEffect :
      (f : Flush) (g : Goctopus S) (cids : List ℕ)
      → SameEffect (if is_empty cids then g else send_reply st p f key cids none (fetched g)) g
  unfolding send_reply
  unanswered_SameEffect f g [] = (refl, refl, refl, refl)
  unanswered_SameEffect f g (c ∷ cids) = (refl, refl, refl, refl)

  -- A flush that finds everything settled writes nothing, whether or not the storage answers.
  send_messages_settled :
      (f : Flush) (g : Goctopus S)
      → AllSettled p f.clock (receivers g) (view g.storage key) g.clients
      → SameEffect (send_messages st p f key g) g
  unfolding send_messages
  send_messages_settled f g a = elim (law.get_queue_result key g.storage) [
    | inl e ↦ rw e (unanswered_SameEffect f g (receivers g))
    | inr e ↦
        let looped = send_messages_answered f g e in
        rw (send_queue_settled p f key (receivers g) (view g.storage key) (fetched g) a) at looped
  ]

  flush_storage :
      (f : Flush) (g : Goctopus S) (cids : List ℕ) (reply : Option (List Message)) (j : Text)
      → view (if is_empty cids then g else send_reply st p f key cids reply (fetched g)).storage j
        ≡ view g.storage j
  unfolding send_reply
  flush_storage f g [] reply j = refl
  flush_storage f g (c ∷ cids) none j = law.get_queue_view key j g.storage
  flush_storage f g (c ∷ cids) (some []) j = law.get_queue_view key j g.storage
  flush_storage f g (c ∷ cids) (some (m ∷ queue)) j =
      rw ((send_queue-SameBut p f key (c ∷ cids) (m ∷ queue) (fetched g)).storage)
        (law.get_queue_view key j g.storage)

  -- A flush leaves every queue as it was.
  pub send_messages-view :
      (f : Flush) (g : Goctopus S) (j : Text)
      → view (send_messages st p f key g).storage j ≡ view g.storage j
  unfolding send_messages
  send_messages-view f g j = flush_storage f g (receivers g) (st.get_queue key g.storage).0 j

  -- Where the storage answered a flush, a second one, whose times are not earlier, writes to no
  -- client and changes no client and no counter, however its writes would have gone: what is in
  -- flight is not sent again.
  pub send_messages_again :
      (f later : Flush) (g : Goctopus S)
      → (st.get_queue key g.storage).0 ≢ none
      → ((id : ℕ) → f.clock id ≤ later.clock id)
      → SameEffect
          (send_messages st p later key (send_messages st p f key g))
          (send_messages st p f key g)
  send_messages_again f later g answered le =
      let g' = send_messages st p f key g in
      let done = send_messages_answered f g (answer_of g answered) in
      let kept = send_queue-SameBut p f key (receivers g) (view g.storage key) (fetched g) in
      let same : receivers g' ≡ receivers g =
        ap₂ (clients_for_key p key) (done.2 ∙ kept.conns) (done.3 ∙ kept.patterns) in
      send_messages_settled later g' (
        rw (same, send_messages-view f g key)
          (AllSettled-later p f.clock later.clock (receivers g) (view g.storage key) g'.clients le
            (send_messages-AllSettled f g answered)))

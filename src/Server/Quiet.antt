-- ===== src/Server/Quiet.antt =====
-- The operations that leave the registry alone, and only ever close a client.
use goctopus.Registry.Invariant.{IsRegistry}
use goctopus.Sweeper.{sweep_queue, count_expired, sweep_reply, sweep_key}
use goctopus.Ack.{acknowledged, count_delivered, remove_taken, ack_id, handle_ack}
use goctopus.Publish.{publish_to, Visit}
use goctopus.Delivery.Settled.{is_due, send_message_due, send_message_idle}
use goctopus.Delivery.Pass.{delivered, deliver-clients}
use goctopus.Delivery.{
  deliver, deliver_all, send_message, send_queue, send_reply, send_messages, Flush,
}
use goctopus.Client.Inflight.{refuses, IsClosedOnce}
use goctopus.Client.{take_inflight}
use goctopus.Engine.{store, clients_for_key, queue_message, delete_msg_by_id, notify, Goctopus}
use goctopus.Storage.{Storage}
use goctopus.Message.{is_empty, is_expired, Message, Platform}
use goctopus.Prelude.{
  Bool-cases, Option-cases, Text, ℕ, ◌+◌, ◌≡◌, refl, ap, ◌∙◌, inl, inr, Option, none, some, List,
  [], ◌∷◌, arith,
}

pub record IsQuiet {S : Type 0} (g g' : Goctopus S) : Type 0 where
  pub conns : g'.conns ≡ g.conns
  pub patterns : g'.patterns ≡ g.patterns
  pub next : g'.next ≡ g.next
  pub keys : (x : ℕ) → (g'.clients x).keys ≡ (g.clients x).keys
  pub closing : (x : ℕ) → IsClosedOnce (g.clients x) → IsClosedOnce (g'.clients x)

pub IsQuiet-refl : {S : Type 0} (g : Goctopus S) → IsQuiet g g
IsQuiet-refl g = record {
  conns = refl;
  patterns = refl;
  next = refl;
  keys = λ x. refl;
  closing = λ x h. h;
}

pub IsQuiet-trans : {S : Type 0} {a b c : Goctopus S} → IsQuiet a b → IsQuiet b c → IsQuiet a c
IsQuiet-trans h k = record {
  conns = k.conns ∙ h.conns;
  patterns = k.patterns ∙ h.patterns;
  next = k.next ∙ h.next;
  keys = λ x. k.keys x ∙ h.keys x;
  closing = λ x v. k.closing x (h.closing x v);
}

-- A change outside the registry and the clients.
pub same-IsQuiet :
    {S : Type 0} (g g' : Goctopus S)
    → g'.conns ≡ g.conns
    → g'.patterns ≡ g.patterns
    → g'.next ≡ g.next
    → g'.clients ≡ g.clients
    → IsQuiet g g'
same-IsQuiet g g' c p n e = record {
  conns = c;
  patterns = p;
  next = n;
  keys = λ x. ap (λ h. (h x).keys) e;
  closing = λ x v. rw e v;
}

pub IsQuiet-IsRegistry :
    {S : Type 0} {g g' : Goctopus S} → IsQuiet g g' → IsRegistry g → IsRegistry g'
IsQuiet-IsRegistry q v = record {
  no_empty = rw q.conns v.no_empty;
  patterns_known = rw (q.conns, q.patterns) v.patterns_known;
  patterns_used = rw (q.conns, q.patterns) v.patterns_used;
  own_keys = λ k x. rw (q.conns, q.keys x, q.next) (v.own_keys k x);
}

module _ {S : Type 0} (p : Platform) (f : Flush) (key : Text) where
  deliver-registry :
      (m : Message) (payload : Text) (cid : ℕ) (g : Goctopus S)
      → ((deliver p f key m payload cid g).conns ≡ g.conns)
        × ((deliver p f key m payload cid g).patterns ≡ g.patterns)
        × ((deliver p f key m payload cid g).next ≡ g.next)
  unfolding deliver
  deliver-registry m payload cid g = (ground arith, ground arith, ground arith)

  deliver-client :
      (m : Message) (payload : Text) (cid x : ℕ) (g : Goctopus S)
      → let c = (deliver p f key m payload cid g).clients x in
        (c.keys ≡ (g.clients x).keys) × (IsClosedOnce (g.clients x) → IsClosedOnce c)
  unfolding delivered refuses
  deliver-client m payload cid x g =
      rw (deliver-clients p f key m payload cid x g) (ground arith, λ h. ground arith)

  deliver-IsQuiet :
      (m : Message) (payload : Text) (cid : ℕ) (g : Goctopus S)
      → IsQuiet g (deliver p f key m payload cid g)
  deliver-IsQuiet m payload cid g =
      let (conns, patterns, next) = deliver-registry m payload cid g in
      record {
        conns = conns;
        patterns = patterns;
        next = next;
        keys = λ x. (deliver-client m payload cid x g).0;
        closing = λ x. (deliver-client m payload cid x g).1;
      }

  deliver_all-IsQuiet :
      (m : Message) (payload : Text) (cids : List ℕ) (g : Goctopus S)
      → IsQuiet g (deliver_all p f key m payload cids g)
  unfolding deliver_all
  deliver_all-IsQuiet m payload [] g = IsQuiet-refl g
  deliver_all-IsQuiet m payload (cid ∷ cids) g =
      IsQuiet-trans (deliver-IsQuiet m payload cid g)
        (deliver_all-IsQuiet m payload cids (deliver p f key m payload cid g))

  send_message-IsQuiet :
      (cids : List ℕ) (m : Message) (g : Goctopus S) → IsQuiet g (send_message p f key cids m g)
  send_message-IsQuiet cids m g = elim (Bool-cases (is_due p f.clock m)) [
    | inl due ↦
        let (payload, _, sent) = send_message_due p f key cids m g due in
        rw sent (deliver_all-IsQuiet m payload cids g)
    | inr idle ↦ rw (send_message_idle p f key cids m g idle) (IsQuiet-refl g)
  ]

  send_queue-IsQuiet :
      (cids : List ℕ) (queue : List Message) (g : Goctopus S)
      → IsQuiet g (send_queue p f key cids queue g)
  unfolding send_queue
  send_queue-IsQuiet cids [] g = IsQuiet-refl g
  send_queue-IsQuiet cids (m ∷ queue) g =
      IsQuiet-trans (send_message-IsQuiet cids m g)
        (send_queue-IsQuiet cids queue (send_message p f key cids m g))

module _ {S : Type 0} (st : Storage S) (p : Platform) where
  stored-IsQuiet : (g : Goctopus S) (s : S) → IsQuiet g (record g { storage = s })
  stored-IsQuiet g s = same-IsQuiet g _ refl refl refl refl

  send_reply-IsQuiet :
      (f : Flush) (key : Text) (cids : List ℕ) (reply : Option (List Message)) (g : Goctopus S)
      → IsQuiet g (send_reply st p f key cids reply g)
  unfolding send_reply
  send_reply-IsQuiet f key cids none g = IsQuiet-refl g
  send_reply-IsQuiet f key cids (some []) g = IsQuiet-refl g
  send_reply-IsQuiet f key cids (some (m ∷ queue)) g = send_queue-IsQuiet p f key cids (m ∷ queue) g

  pub send_messages-IsQuiet :
      (f : Flush) (key : Text) (g : Goctopus S) → IsQuiet g (send_messages st p f key g)
  unfolding send_messages
  send_messages-IsQuiet f key g =
      elim (Bool-cases (is_empty (clients_for_key p key g.conns g.patterns))) [
        | inl e ↦ rw e (IsQuiet-refl g)
        | inr e ↦
            let (reply, s) = st.get_queue key g.storage in
            let cids = clients_for_key p key g.conns g.patterns in
            rw e (
              IsQuiet-trans (stored-IsQuiet g s)
                (send_reply-IsQuiet f key cids reply (record g { storage = s })))
      ]

  notify-IsQuiet : (key : Text) (g : Goctopus S) → IsQuiet g (notify st p key g)
  unfolding notify
  notify-IsQuiet key g =
      same-IsQuiet g _ (ground arith) (ground arith) (ground arith) (ground arith)

  pub publish_to-IsQuiet :
      (visits : Text → Visit) (m : Message) (key : Text) (g : Goctopus S)
      → IsQuiet g (publish_to st p visits m key g)
  unfolding publish_to queue_message
  publish_to-IsQuiet visits m key g =
      IsQuiet-trans (IsQuiet-trans (same-IsQuiet g _ refl refl refl refl) (notify-IsQuiet key _))
        (send_messages-IsQuiet (visits key).flush key _)

  ack_id-IsQuiet : (cid id : ℕ) (g : Goctopus S) → IsQuiet g (ack_id st p cid id g)
  unfolding ack_id store take_inflight remove_taken count_delivered delete_msg_by_id
  ack_id-IsQuiet cid id g = record {
    conns = ground arith;
    patterns = ground arith;
    next = ground arith;
    keys = λ x. ground arith;
    closing = λ x v. ground arith;
  }

  pub handle_ack-IsQuiet :
      (cid : ℕ) (payload : Text) (g : Goctopus S) → IsQuiet g (handle_ack st p cid payload g)
  unfolding handle_ack
  handle_ack-IsQuiet cid payload g = elim (Option-cases (acknowledged p payload)) [
    | inl e ↦ rw (e, handle_ack) (IsQuiet-refl g)
    | inr (id, e) ↦ rw (e, handle_ack) (ack_id-IsQuiet cid id g)
  ]

module _ {S : Type 0} (st : Storage S) (p : Platform) (clock : ℕ → ℕ) where
  sweep_queue-IsQuiet :
      (key : Text) (queue : List Message) (n : ℕ) (g : Goctopus S)
      → IsQuiet g (sweep_queue st p clock key queue n g).1
  unfolding sweep_queue delete_msg_by_id
  sweep_queue-IsQuiet key [] n g = IsQuiet-refl g
  sweep_queue-IsQuiet key (m ∷ queue) n g = elim (Bool-cases (is_expired p (clock m.id) m)) [
    | inl e ↦
        rw (e, sweep_queue)
          (IsQuiet-trans (stored-IsQuiet st p g _) (sweep_queue-IsQuiet key queue (n + 1) _))
    | inr e ↦ rw (e, sweep_queue) (sweep_queue-IsQuiet key queue n g)
  ]

  count_expired-IsQuiet : (r : ℕ × Goctopus S) → IsQuiet r.1 (count_expired st p clock r)
  unfolding count_expired
  count_expired-IsQuiet (n, h) =
      same-IsQuiet h _ (ground arith) (ground arith) (ground arith) (ground arith)

  sweep_reply-IsQuiet :
      (key : Text) (reply : Option (List Message)) (g : Goctopus S)
      → IsQuiet g (sweep_reply st p clock key reply g)
  unfolding sweep_reply
  sweep_reply-IsQuiet key none g = IsQuiet-refl g
  sweep_reply-IsQuiet key (some queue) g =
      IsQuiet-trans (sweep_queue-IsQuiet key queue 0 g) (count_expired-IsQuiet _)

  pub sweep_key-IsQuiet : (key : Text) (g : Goctopus S) → IsQuiet g (sweep_key st p clock key g)
  unfolding sweep_key
  sweep_key-IsQuiet key g =
      IsQuiet-trans (stored-IsQuiet st p g _)
        (sweep_reply-IsQuiet key (st.get_queue key g.storage).0 _)

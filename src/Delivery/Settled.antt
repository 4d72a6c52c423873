-- ===== src/Delivery/Settled.antt =====
-- A flush leaves every pending message in flight at every open client of the key, and a second
-- flush finds nothing to write.
use goctopus.Prelude.{
  Bool-cases, Option-cases, Text, ℕ, ◌≤◌, ◌≡◌, refl, ◌∙◌, ◌⊎◌, inl, inr, Bool, true, false, not,
  ◌&&◌, none, some, List, [], ◌∷◌, arith, nat_key,
}
use goctopus.Message.{marshal, is_expired, Message, Platform}
use goctopus.Client.{Client}
use goctopus.Client.Inflight.{refuses, mark_inflight-refuses}
use goctopus.Message.Expiry.{is_expired_mono}
use goctopus.Engine.{Goctopus}
use goctopus.Delivery.{deliver, deliver_all, send_message, send_queue, Flush}
use goctopus.Delivery.Pass.{refuses-delivered_mono, refuses-delivered, deliver-clients}

-- The message is to be written: unexpired at its time, and marshalled without an error.
abbrev pub is_due : Platform → (ℕ → ℕ) → Message → Bool
is_due p clock m =
    not (is_expired p (clock m.id) m) && elim (marshal p m false) [ none ↦ false | some b ↦ true ]

abbrev pub AllRefuse : ℕ → List ℕ → (ℕ → Client) → Type 0
AllRefuse id [] heap = Unit
AllRefuse id (cid ∷ cids) heap = (refuses id (heap cid) ≡ true) × AllRefuse id cids heap

-- Each message of the queue is not due, or it is in flight at each client that is not closed.
abbrev pub AllSettled : Platform → (ℕ → ℕ) → List ℕ → List Message → (ℕ → Client) → Type 0
AllSettled p clock cids [] heap = Unit
AllSettled p clock cids (m ∷ queue) heap =
    ((is_due p clock m ≡ false) ⊎ AllRefuse m.id cids heap) × AllSettled p clock cids queue heap

-- What is refused in one heap is refused in the other.
abbrev pub RefusesMore : (ℕ → Client) → (ℕ → Client) → Type 0
RefusesMore heap heap' = (id x : ℕ) → refuses id (heap x) ≡ true → refuses id (heap' x) ≡ true

pub AllRefuse-mono :
    (id : ℕ) (cids : List ℕ) (heap heap' : ℕ → Client)
    → RefusesMore heap heap'
    → AllRefuse id cids heap
    → AllRefuse id cids heap'
AllRefuse-mono id [] heap heap' more a = tt
AllRefuse-mono id (cid ∷ cids) heap heap' more a =
    (more id cid a.0, AllRefuse-mono id cids heap heap' more a.1)

module _ {S : Type 0} (p : Platform) (f : Flush) (key : Text) where
  deliver-RefusesMore :
      (m : Message) (payload : Text) (cid : ℕ) (g : Goctopus S)
      → RefusesMore g.clients (deliver p f key m payload cid g).clients
  deliver-RefusesMore m payload cid g id x h =
      rw (deliver-clients p f key m payload cid x g) (
        ground (arith, refuses-delivered_mono key m payload (f.writes cid m.id) id (g.clients x) h))

  deliver_all-RefusesMore :
      (m : Message) (payload : Text) (cids : List ℕ) (g : Goctopus S)
      → RefusesMore g.clients (deliver_all p f key m payload cids g).clients
  unfolding deliver_all
  deliver_all-RefusesMore m payload [] g id x h = h
  deliver_all-RefusesMore m payload (cid ∷ cids) g id x h =
      deliver_all-RefusesMore m payload cids (deliver p f key m payload cid g) id x
        (deliver-RefusesMore m payload cid g id x h)

  -- A due message goes to each client in turn; another leaves everything as it was.
  pub send_message_due :
      (cids : List ℕ) (m : Message) (g : Goctopus S)
      → is_due p f.clock m ≡ true
      → (payload : Text) × (marshal p m false ≡ some payload)
        × (send_message p f key cids m g ≡ deliver_all p f key m payload cids g)
  unfolding send_message
  send_message_due cids m g due = elim (Option-cases (marshal p m false)) [
    | inl e ↦ absurd (ground arith)
    | inr (payload, e) ↦ (payload, e, ground arith)
  ]

  pub send_message_idle :
      (cids : List ℕ) (m : Message) (g : Goctopus S)
      → is_due p f.clock m ≡ false
      → send_message p f key cids m g ≡ g
  unfolding send_message
  send_message_idle cids m g idle = ground arith

  send_message-RefusesMore :
      (cids : List ℕ) (m : Message) (g : Goctopus S)
      → RefusesMore g.clients (send_message p f key cids m g).clients
  send_message-RefusesMore cids m g id x h = elim (Bool-cases (is_due p f.clock m)) [
    | inl due ↦
        let (payload, _, sent) = send_message_due cids m g due in
        rw sent (deliver_all-RefusesMore m payload cids g id x h)
    | inr idle ↦ rw (send_message_idle cids m g idle) h
  ]

  pub send_queue-RefusesMore :
      (cids : List ℕ) (queue : List Message) (g : Goctopus S)
      → RefusesMore g.clients (send_queue p f key cids queue g).clients
  unfolding send_queue
  send_queue-RefusesMore cids [] g id x h = h
  send_queue-RefusesMore cids (m ∷ queue) g id x h =
      send_queue-RefusesMore cids queue (send_message p f key cids m g) id x
        (send_message-RefusesMore cids m g id x h)

  deliver_all-AllRefuse :
      (m : Message) (payload : Text) (cids : List ℕ) (g : Goctopus S)
      → AllRefuse m.id cids (deliver_all p f key m payload cids g).clients
  unfolding deliver_all
  deliver_all-AllRefuse m payload [] g = tt
  deliver_all-AllRefuse m payload (cid ∷ cids) g = (
    deliver_all-RefusesMore m payload cids (deliver p f key m payload cid g) m.id cid (
        rw (deliver-clients p f key m payload cid cid g)
          (ground (arith, refuses-delivered key m payload (f.writes cid m.id) (g.clients cid)))),
    deliver_all-AllRefuse m payload cids (deliver p f key m payload cid g),
  )

  send_message-AllRefuse :
      (cids : List ℕ) (m : Message) (g : Goctopus S)
      → is_due p f.clock m ≡ true
      → AllRefuse m.id cids (send_message p f key cids m g).clients
  send_message-AllRefuse cids m g due =
      let (payload, _, sent) = send_message_due cids m g due in
      rw sent (deliver_all-AllRefuse m payload cids g)

  send_message-settled :
      (cids : List ℕ) (m : Message) (queue : List Message) (g : Goctopus S)
      → let g' = send_message p f key cids m g in
        (is_due p f.clock m ≡ false)
        ⊎ AllRefuse m.id cids (send_queue p f key cids queue g').clients
  send_message-settled cids m queue g = elim (Bool-cases (is_due p f.clock m)) [
    | inl due ↦
        let g' = send_message p f key cids m g in
        inr (
          AllRefuse-mono m.id cids g'.clients (send_queue p f key cids queue g').clients
            (send_queue-RefusesMore cids queue g') (send_message-AllRefuse cids m g due))
    | inr idle ↦ inl idle
  ]

  pub send_queue-AllSettled :
      (cids : List ℕ) (queue : List Message) (g : Goctopus S)
      → AllSettled p f.clock cids queue (send_queue p f key cids queue g).clients
  unfolding send_queue
  send_queue-AllSettled cids [] g = tt
  send_queue-AllSettled cids (m ∷ queue) g = (
    send_message-settled cids m queue g,
    send_queue-AllSettled cids queue (send_message p f key cids m g),
  )

  -- Where everything is settled, a flush changes nothing at all.
  deliver_refused :
      (m : Message) (payload : Text) (cid : ℕ) (g : Goctopus S)
      → refuses m.id (g.clients cid) ≡ true
      → deliver p f key m payload cid g ≡ g
  unfolding deliver
  deliver_refused m payload cid g h = ground (arith, mark_inflight-refuses m.id key (g.clients cid))

  deliver_all_refused :
      (m : Message) (payload : Text) (cids : List ℕ) (g : Goctopus S)
      → AllRefuse m.id cids g.clients
      → deliver_all p f key m payload cids g ≡ g
  unfolding deliver_all
  deliver_all_refused m payload [] g a = refl
  deliver_all_refused m payload (cid ∷ cids) g a =
      rw (deliver_refused m payload cid g a.0) (deliver_all_refused m payload cids g a.1)

  send_message_settled :
      (cids : List ℕ) (m : Message) (g : Goctopus S)
      → (is_due p f.clock m ≡ false) ⊎ AllRefuse m.id cids g.clients
      → send_message p f key cids m g ≡ g
  send_message_settled cids m g (inl idle) = send_message_idle cids m g idle
  send_message_settled cids m g (inr a) = elim (Bool-cases (is_due p f.clock m)) [
    | inl due ↦
        let (payload, _, sent) = send_message_due cids m g due in
        sent ∙ deliver_all_refused m payload cids g a
    | inr idle ↦ send_message_idle cids m g idle
  ]

  pub send_queue_settled :
      (cids : List ℕ) (queue : List Message) (g : Goctopus S)
      → AllSettled p f.clock cids queue g.clients
      → send_queue p f key cids queue g ≡ g
  unfolding send_queue
  send_queue_settled cids [] g a = refl
  send_queue_settled cids (m ∷ queue) g a =
      rw (send_message_settled cids m g a.0) (send_queue_settled cids queue g a.1)

-- What is due later was due before, so a later flush has no more to do.
pub AllSettled-later :
    (p : Platform) (clock later : ℕ → ℕ) (cids : List ℕ) (queue : List Message) (heap : ℕ → Client)
    → ((id : ℕ) → clock id ≤ later id)
    → AllSettled p clock cids queue heap
    → AllSettled p later cids queue heap
AllSettled-later p clock later cids [] heap le a = tt
AllSettled-later p clock later cids (m ∷ queue) heap le a = (
  ground (arith, a.0, is_expired_mono p (clock m.id) (later m.id) m (le m.id)),
  AllSettled-later p clock later cids queue heap le a.1,
)

-- ===== src/Interleaving/Counting.antt =====
-- How often a message was written to a client and acknowledged by it, and what is under way.
use goctopus.Client.{write, write_message, mark_inflight, clear_inflight, close, Client}
use goctopus.Engine.{store}
use goctopus.Prelude.GoMap.{lookup, lookup-insert, lookup-delete}
use goctopus.Prelude.{
  if◌then◌else◌, Text, ℕ, zero, suc, ◌+◌, ◌≤◌, ◌<◌, ◌≡◌, refl, ap, ite, Bool, none, some, List, [],
  ◌∷◌, ◌++◌, arith, dec_le, ℕ_discrete, text_key, nat_key,
}
use goctopus.Interleaving.{update, Pc, marked, failed}
use goctopus.Interleaving.Runs.{Event, sent, acked}

-- 1 where both numbers are the ones asked for.
abbrev pub one_if : ℕ → ℕ → ℕ → ℕ → ℕ
one_if cid id c m = ite (ℕ_discrete c cid) (ite (ℕ_discrete m id) 1 0) 0

module _ (cid id : ℕ) where
  -- How often the message was written to the client.
  unfoldable pub sent_count : List Event → ℕ
  sent_count [] = 0
  sent_count (sent c m ∷ trace) = one_if cid id c m + sent_count trace
  sent_count (acked c m k ∷ trace) = sent_count trace

  -- How often the client acknowledged it while it was in flight.
  unfoldable pub acked_count : List Event → ℕ
  acked_count [] = 0
  acked_count (sent c m ∷ trace) = acked_count trace
  acked_count (acked c m k ∷ trace) = one_if cid id c m + acked_count trace

  -- 1 while the message is in flight at a client.
  unfoldable pub flying : Client → ℕ
  flying c = elim (lookup id c.inflight) [ none ↦ 0 | some key ↦ 1 ]

  -- 1 while a goroutine has marked it there, and has neither written it nor given it up.
  unfoldable pub pending : Pc → ℕ
  pending (marked a c rest) = one_if cid id c a.message.id
  pending (failed a c rest) = one_if cid id c a.message.id
  pending pc = 0

  -- The goroutines below a number that have marked it.
  unfoldable pub pending_below : ℕ → (ℕ → Pc) → ℕ
  pending_below zero pcs = 0
  pending_below (suc n) pcs = pending_below n pcs + pending (pcs n)

  pub pending_below-later :
      (n i : ℕ) (pcs : ℕ → Pc) (pc : Pc)
      → n ≤ i
      → pending_below n (update pcs i pc) ≡ pending_below n pcs
  unfolding pending_below update
  pending_below-later zero i pcs pc le = refl
  pending_below-later (suc n) i pcs pc le = ground (arith, pending_below-later n i pcs pc)

  pub pending_below-update :
      (n i : ℕ) (pcs : ℕ → Pc) (pc : Pc)
      → i < n
      → pending_below n (update pcs i pc) + pending (pcs i) ≡ pending_below n pcs + pending pc
  unfolding pending_below update
  pending_below-update zero i pcs pc lt = absurd (omega arith)
  pending_below-update (suc n) i pcs pc lt =
      ground (arith, pending_below-update n i pcs pc, pending_below-later n i pcs pc)

  pub pending_below_mono :
      (n m : ℕ) (pcs : ℕ → Pc) → n ≤ m → pending_below n pcs ≤ pending_below m pcs
  unfolding pending_below
  pending_below_mono n zero pcs le = let e : n ≡ 0 = omega arith in rw e (omega arith)
  pending_below_mono n (suc m) pcs le = elim (dec_le n m) [
    | yes below ↦ omega (arith, pending_below_mono n m pcs below)
    | no above ↦ let e : n ≡ suc m = omega arith in rw e (omega arith)
  ]

  pub sent_count-append :
      (new before : List Event) → sent_count (new ++ before) ≡ sent_count new + sent_count before
  unfolding sent_count
  sent_count-append [] before = omega arith
  sent_count-append (sent c m ∷ new) before = omega (arith, sent_count-append new before)
  sent_count-append (acked c m k ∷ new) before = sent_count-append new before

  pub acked_count-append :
      (new before : List Event) → acked_count (new ++ before) ≡ acked_count new + acked_count before
  unfolding acked_count
  acked_count-append [] before = omega arith
  acked_count-append (sent c m ∷ new) before = acked_count-append new before
  acked_count-append (acked c m k ∷ new) before = omega (arith, acked_count-append new before)

  pub flying-le : (c : Client) → flying c ≤ 1
  unfolding flying
  flying-le c = ground arith

  -- After a write to the heap.
  pub store-flying :
      (heap : ℕ → Client) (c : ℕ) (d : Client)
      → flying (store heap c d cid) ≡ ite (ℕ_discrete c cid) (flying d) (flying (heap cid))
  unfolding store
  store-flying heap c d = ground arith

  pub same-flying : (heap : ℕ → Client) (c : ℕ) → c ≡ cid → flying (heap c) ≡ flying (heap cid)
  same-flying heap c e = ap (λ x. flying (heap x)) e

  pub mark_inflight-flying :
      (m : ℕ) (key : Text) (c : Client)
      → let (first, d) = mark_inflight m key c in
        (if first then ite (ℕ_discrete m id) 1 0 else 0) + flying c ≤ flying d
  unfolding mark_inflight flying
  mark_inflight-flying m key c =
      ground (arith, lookup-insert m id key c.inflight, ap (λ x. lookup x c.inflight))

  pub clear_inflight-flying :
      (m : ℕ) (c : Client) → flying c ≤ ite (ℕ_discrete m id) 1 0 + flying (clear_inflight m c)
  unfolding clear_inflight flying
  clear_inflight-flying m c = ground (arith, lookup-delete m id c.inflight)

  pub write_message-flying :
      (b : Bool) (payload : Text) (c : Client)
      → ((write_message b payload c).0 ≡ b) × (flying (write_message b payload c).1 ≡ flying c)
  unfolding write_message write flying
  write_message-flying b payload c = (ground arith, ground arith)

  pub close-flying : (c : Client) → flying (close c) ≡ flying c
  unfolding close flying
  close-flying c = ground arith

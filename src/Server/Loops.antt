-- ===== src/Server/Loops.antt =====
-- The loops of one connection, among the operations of the instance.
use goctopus.Client.{close}
use goctopus.Config.{Config}
use goctopus.Message.{Platform}
use goctopus.Storage.{Storage}
use goctopus.Engine.{store, conns_of, Goctopus}
use goctopus.Registry.Removal.{has-remove_client}
use goctopus.Registry.{remove_client}
use goctopus.Frames.{
  payload_of, ping_client, handle_frame, receive, receive_all, read_loop, ping_round, ping_loop,
  Stream, Incoming, Wake, op_text, op_binary, op_ping, op_pong, op_close, op_continuation,
  connection_done, context_done, ticks,
}
use goctopus.Server.Soundness.{remove_keys-clients, Reach-IsSound}
use goctopus.Server.{Reach, acknowledges, leaves, pongs, pings, closes, steps}
use goctopus.Prelude.{
  Bool-cases, Option-cases, Text, has, ℕ, ◌≡◌, ap, ◌∙◌, inl, inr, true, false, List, [], ◌∷◌, arith,
  nat_key,
}

module _ {S : Type 0} (st : Storage S) (p : Platform) (cfg : Config) where
  -- What the other goroutines do leads to states that the instance reaches.
  abbrev pub IsServing : (Goctopus S → Goctopus S) → Type 0
  IsServing meanwhile = (g : Goctopus S) → Reach st p cfg g → Reach st p cfg (meanwhile g)

  abbrev pub AllServing : {A : Type 0} → List ((Goctopus S → Goctopus S) × A) → Type 0
  AllServing [] = Unit
  AllServing ((meanwhile, a) ∷ rest) = IsServing meanwhile × AllServing rest

  module _ (flate : Text → Stream) where
    handle_frame-Reach :
        (cid : ℕ) (i : Incoming) (payload : Text) (g : Goctopus S)
        → Reach st p cfg g
        → Reach st p cfg (handle_frame st p cfg flate cid i payload g).1
    unfolding handle_frame
    handle_frame-Reach cid i payload g r =
        elim i.opcode
          as (λ o.
            Reach st p cfg
              (handle_frame st p cfg flate cid (record i { opcode = o }) payload g).1) [
                | op_text ↦ steps r (acknowledges cid payload)
                | op_binary ↦ steps r (acknowledges cid payload)
                | op_ping ↦ steps r (pongs cid i.pong_writes payload)
                | op_pong ↦ r
                | op_close ↦ r
                | op_continuation ↦ r
              ]

    receive-Reach :
        (cid : ℕ) (i : Incoming) (g : Goctopus S)
        → Reach st p cfg g
        → Reach st p cfg (receive st p cfg flate cid i g).1
    unfolding receive
    receive-Reach cid i g r =
        elim (Option-cases (payload_of flate cfg.max_message_bytes (g.clients cid).compress i)) [
          | inl e ↦ rw (e, receive) r
          | inr (payload, e) ↦ rw (e, receive) (handle_frame-Reach cid i payload g r)
        ]

    receive_all-Reach :
        (cid : ℕ) (frames : List ((Goctopus S → Goctopus S) × Incoming)) (g : Goctopus S)
        → AllServing frames
        → Reach st p cfg g
        → Reach st p cfg (receive_all st p cfg flate cid frames g)
    unfolding receive_all
    receive_all-Reach cid [] g v r = r
    receive_all-Reach cid ((meanwhile, i) ∷ frames) g v r =
        let g' = meanwhile g in
        let next = receive-Reach cid i g' (v.0 g r) in
        elim (Bool-cases (receive st p cfg flate cid i g').0) [
          | inl e ↦ rw (e, receive_all) (receive_all-Reach cid frames _ v.1 next)
          | inr e ↦ rw (e, receive_all) next
        ]

    -- From a state that the instance reaches, whatever frames a client sends, and whatever the
    -- other goroutines do between them, if that too leads to states that the instance reaches: the
    -- loop that reads from the client is made of steps of the instance, and when it ends the client
    -- is closed and stands under no key.
    pub read_loop_ends :
        (cid : ℕ) (frames : List ((Goctopus S → Goctopus S) × Incoming))
        (meanwhile : Goctopus S → Goctopus S) (g : Goctopus S)
        → AllServing frames
        → IsServing meanwhile
        → Reach st p cfg g
        → Reach st p cfg (read_loop st p cfg flate cid frames meanwhile g)
          × (((read_loop st p cfg flate cid frames meanwhile g).clients cid).closed ≡ true)
          × ((k : Text)
              → has cid (conns_of (read_loop st p cfg flate cid frames meanwhile g).conns k)
                ≡ false)
    unfolding read_loop remove_client store close
    read_loop_ends cid frames meanwhile g v w r =
        let g' = meanwhile (receive_all st p cfg flate cid frames g) in
        let r' = w _ (receive_all-Reach cid frames g v r) in
        (
          steps r' (leaves cid),
          ap (λ heap. (heap cid).closed) (remove_keys-clients cid (g'.clients cid).keys _)
              ∙ ground arith,
          λ k. has-remove_client cid g' (Reach-IsSound st p cfg r').registry k cid ∙ ground arith,
        )

  ping_round-Reach :
      (cid : ℕ) (w : Wake) (g : Goctopus S)
      → Reach st p cfg g
      → Reach st p cfg (ping_round cid w g).1
  unfolding ping_round
  ping_round-Reach cid connection_done g r = r
  ping_round-Reach cid context_done g r = steps r (closes cid)
  ping_round-Reach cid (ticks writes) g r =
      let next = steps r (pings cid writes) in
      elim (Bool-cases (ping_client cid writes g).0) [
        | inl e ↦ rw (e, ping_round) next
        | inr e ↦ rw (e, ping_round) (steps next (closes cid))
      ]

  pub ping_loop-Reach :
      (cid : ℕ) (wakes : List ((Goctopus S → Goctopus S) × Wake)) (g : Goctopus S)
      → AllServing wakes
      → Reach st p cfg g
      → Reach st p cfg (ping_loop cid wakes g)
  unfolding ping_loop
  ping_loop-Reach cid [] g v r = r
  ping_loop-Reach cid ((meanwhile, w) ∷ wakes) g v r =
      let next = ping_round-Reach cid w _ (v.0 g r) in
      elim (Bool-cases (ping_round cid w (meanwhile g)).0) [
        | inl e ↦ rw (e, ping_loop) (ping_loop-Reach cid wakes _ v.1 next)
        | inr e ↦ rw (e, ping_loop) next
      ]

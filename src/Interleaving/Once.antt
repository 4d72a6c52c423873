-- ===== src/Interleaving/Once.antt =====
-- How often a message is written to a connection.
use goctopus.Interleaving.Counting.{
  sent_count, acked_count, flying, pending, pending_below, pending_below-update, pending_below_mono,
  sent_count-append, acked_count-append, store-flying, same-flying, mark_inflight-flying,
  clear_inflight-flying, write_message-flying, close-flying,
}
use goctopus.Interleaving.Inflight.{IsWhole-KeepsInflight}
use goctopus.Interleaving.Known.{Runs-IsKnown, IsKnown}
use goctopus.Config.{Config}
use goctopus.Ack.{count_delivered}
use goctopus.Client.{write_message, mark_inflight, take_inflight, clear_inflight, close, Client}
use goctopus.Engine.{queue_message, delete_msg_by_id, notify}
use goctopus.Storage.{Storage}
use goctopus.Message.{Platform}
use goctopus.Prelude.GoMap.{lookup}
use goctopus.Prelude.{
  Option-cases, Text, ℕ, zero, suc, ◌+◌, ◌≤◌, ◌≡◌, refl, inl, inr, List, [], ◌∷◌, ◌++◌, arith,
  text_key, nat_key,
}
use goctopus.Interleaving.{
  update, at_client, observe, take_acked, advance, Pc, Access, World, idle, waits, locked, snapshot,
  outer, inner, marked, wrote, failed, cleared, leaving, taken, counting, sweeps_key, sweeping,
  doomed, swept,
}
use goctopus.Interleaving.Runs.{
  sends, takes, goes, Event, System, Moves, Runs, schedules, sweeps_out, receives, accesses,
  enqueues, records, notifies, performs, begins, moves,
}

module _ (cid id : ℕ) where
  module _ {S : Type 0} (st : Storage S) (p : Platform) (hash : Text → ℕ) where
    -- What an access sends and marks is covered by what was marked and is in flight.
    advance-covered :
        (e : Access) (pc : Pc) (w : World S)
        → let (w', pc') = advance st p hash e pc w in
          sent_count cid id (sends e pc) + pending cid id pc' + flying cid id (w.node.clients cid)
          ≤ acked_count cid id (sends e pc)
            + pending cid id pc
            + flying cid id (w'.node.clients cid)
    unfolding advance sends sent_count acked_count pending at_client observe delete_msg_by_id
        count_delivered
    advance-covered e idle w = omega arith
    advance-covered e (waits key) w = ground arith
    advance-covered e (locked key) w = omega arith
    advance-covered e (snapshot key cids) w = ground arith
    advance-covered e (outer key cids []) w = omega arith
    advance-covered e (outer key cids (m ∷ queue)) w = ground arith
    advance-covered e (inner a []) w = omega arith
    advance-covered e (inner a (c ∷ rest)) w =
        let (first, d) = mark_inflight a.message.id a.key (w.node.clients c) in
        ground (
          arith,
          mark_inflight-flying cid id a.message.id a.key (w.node.clients c),
          store-flying cid id w.node.clients c d,
          same-flying cid id w.node.clients c,
        )
    advance-covered e (marked a c rest) w =
        let d = (write_message e.writes a.payload (w.node.clients c)).1 in
        ground (
          arith,
          write_message-flying cid id e.writes a.payload (w.node.clients c),
          store-flying cid id w.node.clients c d,
          same-flying cid id w.node.clients c,
        )
    advance-covered e (wrote a rest) w = omega arith
    advance-covered e (failed a c rest) w = ground (
      arith,
      clear_inflight-flying cid id a.message.id (w.node.clients c),
      store-flying cid id w.node.clients c (clear_inflight a.message.id (w.node.clients c)),
      same-flying cid id w.node.clients c,
    )
    advance-covered e (cleared a c rest) w = ground (
      arith,
      close-flying cid id (w.node.clients c),
      store-flying cid id w.node.clients c (close (w.node.clients c)),
      same-flying cid id w.node.clients c,
    )
    advance-covered e (leaving key) w = omega arith
    advance-covered e (taken i key) w = omega arith
    advance-covered e counting w = omega arith
    advance-covered e (sweeps_key key) w = ground arith
    advance-covered e (sweeping key [] removed) w = ground arith
    advance-covered e (sweeping key (m ∷ queue) removed) w = ground arith
    advance-covered e (doomed key m queue removed) w = omega arith
    advance-covered e (swept removed) w = omega arith

  same_inflight : (c d : Client) → c.inflight ≡ d.inflight → flying cid id c ≡ flying cid id d
  unfolding flying
  same_inflight c d e = rw e refl

  pending_below-idle : (n : ℕ) → pending_below cid id n (λ _. idle) ≡ 0
  unfolding pending_below pending
  pending_below-idle zero = refl
  pending_below-idle (suc n) = omega (arith, pending_below-idle n)

  -- What was written and is marked is covered by what was acknowledged and is in flight.
  abbrev Covered : {S : Type 0} → System S → List Event → Type 0
  Covered s trace =
      (n : ℕ)
      → sent_count cid id trace + pending_below cid id n s.pcs
        ≤ acked_count cid id trace + flying cid id (s.world.node.clients cid)

  goes-Covered :
      {S : Type 0} (s : System S) (i : ℕ) (w : World S) (pc : Pc) (before new : List Event)
      → sent_count cid id new + pending cid id pc + flying cid id (s.world.node.clients cid)
        ≤ acked_count cid id new + pending cid id (s.pcs i) + flying cid id (w.node.clients cid)
      → Covered s before
      → Covered (goes i (w, pc) s) (new ++ before)
  goes-Covered s i w pc before new h v n = omega (
    arith,
    v (n + i + 1),
    sent_count-append cid id new before,
    acked_count-append cid id new before,
    pending_below-update cid id (n + i + 1) i s.pcs pc (omega arith),
    pending_below_mono cid id n (n + i + 1) (update s.pcs i pc) (omega arith),
  )

  take_acked-covered :
      {S : Type 0} (c m : ℕ) (w : World S)
      → let (w', pc) = take_acked c m w in
        sent_count cid id (takes c m w.node)
          + pending cid id pc
          + flying cid id (w.node.clients cid)
        ≤ acked_count cid id (takes c m w.node) + flying cid id (w'.node.clients cid)
  unfolding take_acked take_inflight takes sent_count acked_count pending at_client clear_inflight
  take_acked-covered c m w =
      let heap = w.node.clients in
      elim (Option-cases (lookup m (heap c).inflight)) [
        | inl e ↦
            rw (e, takes)
              (ground (arith, store-flying cid id heap c (heap c), same-flying cid id heap c))
        | inr (key, e) ↦
            rw (e, takes)
              (ground (
                arith,
                clear_inflight-flying cid id m (heap c),
                store-flying cid id heap c (clear_inflight m (heap c)),
                same-flying cid id heap c,
              ))
      ]

  module _ {S : Type 0} (st : Storage S) (p : Platform) (cfg : Config) (hash : Text → ℕ) where
    Moves-Covered :
        {s t : System S} (before : List Event) {new : List Event}
        → Moves st p cfg hash s t new
        → IsKnown s
        → Covered s before
        → Covered t (new ++ before)
    unfolding pending queue_message notify sent_count acked_count
    Moves-Covered {s} b (schedules i key at_idle) known v n =
        goes-Covered s i s.world (waits key) b [] (omega arith) v n
    Moves-Covered {s} b (sweeps_out i key at_idle) known v n =
        goes-Covered s i s.world (sweeps_key key) b [] (omega arith) v n
    Moves-Covered {s} b (receives i c m payload at_idle named) known v n =
        let (w, pc) = take_acked c m s.world in
        goes-Covered s i w pc b (takes c m s.world.node)
          (omega (arith, take_acked-covered c m s.world)) v n
    Moves-Covered {s} b (accesses i e) known v n =
        let (w, pc) = advance st p hash e (s.pcs i) s.world in
        goes-Covered s i w pc b (sends e (s.pcs i)) (advance-covered st p hash e (s.pcs i) s.world)
          v n
    Moves-Covered {s} b (enqueues m) known v n = v n
    Moves-Covered {s} b (records key m at) known v n = v n
    Moves-Covered {s} b (notifies key) known v n = ground (arith, v n)
    Moves-Covered {s} b (performs {g} step whole) known v n = omega (
      arith,
      v n,
      same_inflight (g.clients cid) (s.world.node.clients cid)
          ((IsWhole-KeepsInflight st p cfg step whole).inflight known.blank cid),
    )

    Runs-Covered :
        {s : System S} {trace : List Event} → Runs st p cfg hash s trace → Covered s trace
    unfolding pending_below pending sent_count acked_count
    Runs-Covered (begins x history limiter) n = omega (arith, pending_below-idle n)
    Runs-Covered (moves r m) n = Moves-Covered _ m (Runs-IsKnown st p cfg hash r) (Runs-Covered r) n

    -- However the accesses of the goroutines interleave, a message was written to a client no more
    -- often than the client acknowledged it while it was in flight, and once more while it is: a
    -- message that awaits its acknowledgement is not sent again.
    pub sent_count-le :
        {s : System S} {trace : List Event}
        → Runs st p cfg hash s trace
        → sent_count cid id trace
          ≤ acked_count cid id trace + flying cid id (s.world.node.clients cid)
    unfolding pending_below
    sent_count-le r = omega (arith, Runs-Covered r 0)

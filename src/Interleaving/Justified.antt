-- ===== src/Interleaving/Justified.antt =====
-- What a goroutine that is about to delete a message has seen: an `ACK` for it, or its expiry.
use goctopus.Client.{take_inflight}
use goctopus.Config.{Config}
use goctopus.Storage.{Storage}
use goctopus.Message.{is_expired, Message, Platform}
use goctopus.Prelude.GoMap.{lookup}
use goctopus.Prelude.{
  Bool-cases, Option-cases, decide, Text, Text-discrete, ℕ, ◌≡◌, refl, ◌≢◌, inl, inr, Bool, true,
  false, ◌&&◌, ◌||◌, List, [], ◌∷◌, ◌++◌, arith, ℕ_discrete, text_key, nat_key,
}
use goctopus.Interleaving.{
  update, after_reply, take_acked, advance, Pc, Access, World, waits, snapshot, outer, inner, taken,
  sweeps_key, sweeping, doomed,
}
use goctopus.Interleaving.Runs.{
  sends, takes, goes, Event, System, Moves, Runs, sent, acked, schedules, sweeps_out, receives,
  accesses, enqueues, records, notifies, performs, begins, moves,
}

-- Whether some client acknowledged the message with an id that was in flight under a key.
unfoldable pub is_acked : ℕ → Text → List Event → Bool
is_acked id key [] = false
is_acked id key (sent c m ∷ trace) = is_acked id key trace
is_acked id key (acked c m k ∷ trace) =
    decide (ℕ_discrete m id) && decide (Text-discrete k key) || is_acked id key trace

is_acked-append :
    (id : ℕ) (key : Text) (new before : List Event)
    → is_acked id key (new ++ before) ≡ (is_acked id key new || is_acked id key before)
unfolding is_acked
is_acked-append id key [] before = refl
is_acked-append id key (sent c m ∷ new) before = is_acked-append id key new before
is_acked-append id key (acked c m k ∷ new) before =
    ground (arith, is_acked-append id key new before)

module _ {S : Type 0} (st : Storage S) (p : Platform) (cfg : Config) (hash : Text → ℕ) where
  -- A goroutine of `handleAck` that is about to delete a message answers an `ACK` of the trace.
  abbrev pub IsAnswering : (ℕ → Pc) → List Event → Type 0
  IsAnswering pcs trace =
      (i id : ℕ) (key : Text) → pcs i ≡ taken id key → is_acked id key trace ≡ true

  advance-taken :
      (e : Access) (pc : Pc) (w : World S) (id : ℕ) (key : Text)
      → (advance st p hash e pc w).1 ≢ taken id key
  unfolding advance after_reply
  advance-taken e (snapshot k cids) w id key h = ground arith
  advance-taken e (outer k cids []) w id key h = ground arith
  advance-taken e (outer k cids (m ∷ queue)) w id key h = ground arith
  advance-taken e (inner a []) w id key h = ground arith
  advance-taken e (inner a (c ∷ rest)) w id key h = ground arith
  advance-taken e pc w id key h = ground arith

  take_acked-taken :
      (cid m : ℕ) (w : World S) (id : ℕ) (key : Text)
      → (take_acked cid m w).1 ≡ taken id key
      → is_acked id key (takes cid m w.node) ≡ true
  unfolding take_acked take_inflight takes is_acked
  take_acked-taken cid m w id key h = elim (Option-cases (lookup m (w.node.clients cid).inflight)) [
    | inl e ↦ absurd (ground arith)
    | inr (k, e) ↦ ground arith
  ]

  goes-IsAnswering :
      (s : System S) (i : ℕ) (w : World S) (pc : Pc) (before new : List Event)
      → ((id : ℕ) (key : Text) → pc ≡ taken id key → is_acked id key new ≡ true)
      → IsAnswering s.pcs before
      → IsAnswering (goes i (w, pc) s).pcs (new ++ before)
  unfolding update
  goes-IsAnswering s i w pc before new h v j id key e =
      ground (arith, h id key, v j id key, is_acked-append id key new before)

  Moves-IsAnswering :
      {s t : System S} (before : List Event) {new : List Event}
      → Moves st p cfg hash s t new
      → IsAnswering s.pcs before
      → IsAnswering t.pcs (new ++ before)
  Moves-IsAnswering {s} b (schedules i key at_idle) v =
      goes-IsAnswering s i s.world (waits key) b [] (λ id k e. cc) v
  Moves-IsAnswering {s} b (sweeps_out i key at_idle) v =
      goes-IsAnswering s i s.world (sweeps_key key) b [] (λ id k e. cc) v
  Moves-IsAnswering {s} b (receives i cid m payload at_idle named) v =
      let (w, pc) = take_acked cid m s.world in
      goes-IsAnswering s i w pc b (takes cid m s.world.node)
        (λ id key e. take_acked-taken cid m s.world id key e) v
  Moves-IsAnswering {s} b (accesses i e) v =
      let (w, pc) = advance st p hash e (s.pcs i) s.world in
      goes-IsAnswering s i w pc b (sends e (s.pcs i))
        (λ id key h. absurd (advance-taken e (s.pcs i) s.world id key h)) v
  Moves-IsAnswering b (enqueues m) v = v
  Moves-IsAnswering b (records key m at) v = v
  Moves-IsAnswering b (notifies key) v = v
  Moves-IsAnswering b (performs step whole) v = v

  pub Runs-IsAnswering :
      {s : System S} {trace : List Event} → Runs st p cfg hash s trace → IsAnswering s.pcs trace
  Runs-IsAnswering (begins x history limiter) = λ i id key e. cc
  Runs-IsAnswering (moves r m) = Moves-IsAnswering _ m (Runs-IsAnswering r)

  -- A sweep that is about to delete a message found it expired.
  abbrev pub IsDooming : (ℕ → Pc) → Type 0
  IsDooming pcs =
      (i : ℕ) (key : Text) (m : Message) (queue : List Message) (removed : ℕ)
      → pcs i ≡ doomed key m queue removed
      → (now : ℕ) × (is_expired p now m ≡ true)

  advance-doomed :
      (e : Access) (pc : Pc) (w : World S) (key : Text) (m : Message) (queue : List Message)
      (removed : ℕ)
      → (advance st p hash e pc w).1 ≡ doomed key m queue removed
      → is_expired p e.clock m ≡ true
  unfolding advance after_reply
  advance-doomed e (snapshot k cids) w key m queue removed h = absurd (ground arith)
  advance-doomed e (outer k cids []) w key m queue removed h = absurd (ground arith)
  advance-doomed e (outer k cids (n ∷ rest)) w key m queue removed h = absurd (ground arith)
  advance-doomed e (inner a []) w key m queue removed h = absurd (ground arith)
  advance-doomed e (inner a (c ∷ rest)) w key m queue removed h = absurd (ground arith)
  advance-doomed e (sweeping k [] found) w key m queue removed h = absurd (ground arith)
  advance-doomed e (sweeping k (n ∷ rest) found) w key m queue removed h =
      elim (Bool-cases (is_expired p e.clock n)) [
        | inl expired ↦ ground arith
        | inr kept ↦ absurd (ground arith)
      ]
  advance-doomed e pc w key m queue removed h = absurd (ground arith)

  goes-IsDooming :
      (s : System S) (i : ℕ) (w : World S) (pc : Pc)
      → ((key : Text) (m : Message) (queue : List Message) (removed : ℕ)
          → pc ≡ doomed key m queue removed
          → (now : ℕ) × (is_expired p now m ≡ true))
      → IsDooming s.pcs
      → IsDooming (goes i (w, pc) s).pcs
  unfolding update
  goes-IsDooming s i w pc h v j key m queue removed e = elim (ℕ_discrete i j) [
    | yes mine ↦ h key m queue removed (ground arith)
    | no not_mine ↦ v j key m queue removed (ground arith)
  ]

  Moves-IsDooming :
      {s t : System S} {new : List Event}
      → Moves st p cfg hash s t new
      → IsDooming s.pcs
      → IsDooming t.pcs
  unfolding take_acked
  Moves-IsDooming {s} (schedules i k at_idle) v =
      goes-IsDooming s i s.world (waits k) (λ key m q r e. absurd (ground arith)) v
  Moves-IsDooming {s} (sweeps_out i k at_idle) v =
      goes-IsDooming s i s.world (sweeps_key k) (λ key m q r e. absurd (ground arith)) v
  Moves-IsDooming {s} (receives i cid n payload at_idle named) v =
      let (w, pc) = take_acked cid n s.world in
      goes-IsDooming s i w pc (λ key m q r e. absurd (ground arith)) v
  Moves-IsDooming {s} (accesses i e) v =
      let (w, pc) = advance st p hash e (s.pcs i) s.world in
      goes-IsDooming s i w pc
        (λ key m q r h. (e.clock, advance-doomed e (s.pcs i) s.world key m q r h)) v
  Moves-IsDooming (enqueues m) v = v
  Moves-IsDooming (records key m at) v = v
  Moves-IsDooming (notifies key) v = v
  Moves-IsDooming (performs step whole) v = v

  pub Runs-IsDooming :
      {s : System S} {trace : List Event} → Runs st p cfg hash s trace → IsDooming s.pcs
  Runs-IsDooming (begins x history limiter) = λ i key m q r e. absurd (ground arith)
  Runs-IsDooming (moves r m) = Moves-IsDooming m (Runs-IsDooming r)

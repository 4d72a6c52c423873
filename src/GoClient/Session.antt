-- ===== src/GoClient/Session.antt =====
-- clients/go/goctopus.go: `session` and `Run`. The connection, the random numbers and the context are
-- what the client meets.
use goctopus.GoClient.{mark_seen, Subscriber}
use goctopus.Message.{Value}
use goctopus.Prelude.{
  ltb, if◌then◌else◌, ltb_ℤ, leb_ℤ, ℤ, pos, Text, ℕ, zero, suc, ◌+◌, ◌*◌, Bool, false, ◌&&◌, Option,
  none, some, List, [], ◌∷◌, ◌++◌,
}

-- What is read: a message, `none` where the JSON does not parse; and whether the ACK is written then.
pub record Received : Type 0 where
  pub message : Option (Text × Value)
  pub ack_writes : Bool

-- The client, with the ids that it acknowledged and the messages that it handed to `OnMessage`.
pub record Session : Type 0 where
  pub subscriber : Subscriber
  pub acked : List Text
  pub handed : List (Text × Value)

-- Behind the ACK.
unfoldable pub hand_on : Text → Value → Session → Session
unfolding mark_seen
hand_on id payload s =
    let (is_new, c) = mark_seen id s.subscriber in
    record {
      subscriber = c;
      acked = s.acked ++ id ∷ [];
      handed = if is_new then s.handed ++ (id, payload) ∷ [] else s.handed;
    }

-- The loop. The result `false` is an error; behind the last message reading fails.
unfoldable pub read_messages : List Received → Session → Bool × Session
unfolding hand_on
read_messages [] s = (false, s)
read_messages (i ∷ reads) s = elim i.message [
  | none ↦ read_messages reads s
  | some (id, payload) ↦
      let rest = read_messages reads (hand_on id payload s) in
      if i.ack_writes then rest else (false, s)
]

unfoldable pub session : Bool → List Received → Session → Bool × Session
unfolding read_messages
session dials reads s = if dials then read_messages reads s else (false, s)

-- What a turn of the loop of `Run` meets; `cancelled` is that the context ends during the sleep.
pub record Turn : Type 0 where
  pub context_done : Bool
  pub dials : Bool
  pub reads : List Received
  pub cancelled : Bool

-- Durations, `MaxRetries` and the variables of `Run`. `delays` lists the sleeps, the last one first, and
-- `sessions` counts the calls of `session`.
pub record Running : Type 0 where
  pub current : Session
  pub backoff : ℕ
  pub retries : ℕ
  pub delays : List ℕ
  pub sessions : ℕ

-- Durations are below 2 ^ 62, so that doubling does not wrap around.
unfoldable pub next_backoff : ℕ → ℕ → ℕ
next_backoff max_backoff backoff =
    let doubled = backoff * 2 in if ltb max_backoff doubled then max_backoff else doubled

module _ (min_backoff max_backoff : ℕ) (max_retries : ℤ) (random : ℕ → ℕ) where
  unfoldable pub attempt : Turn → Running → Running
  unfolding session
  attempt turn r =
      let (succeeds, s) = session turn.dials turn.reads r.current in
      record r {
        current = s;
        backoff = if succeeds then min_backoff else r.backoff;
        retries = if succeeds then 0 else r.retries;
        sessions = r.sessions + 1;
      }

  unfoldable pub is_exhausted : Running → Bool
  is_exhausted r = ltb_ℤ (pos 0) max_retries && leb_ℤ max_retries (pos r.retries)

  -- `rand.Int63n(int64(backoff) + 1)`, and the doubling.
  unfoldable pub back_off : Running → Running
  unfolding next_backoff
  back_off r = record r {
    backoff = next_backoff max_backoff r.backoff;
    retries = r.retries + 1;
    delays = random (r.backoff + 1) ∷ r.delays;
  }

  -- The loop, with fuel; `none` is that it ran out.
  unfoldable pub run_turns : ℕ → (ℕ → Turn) → Running → Option Running
  unfolding attempt is_exhausted back_off
  run_turns zero turns r = none
  run_turns (suc fuel) turns r =
      let turn = turns zero in
      let r' = attempt turn r in
      let rest = run_turns fuel (λ n. turns (suc n)) (back_off r') in
      if turn.context_done
      then some r
      else if is_exhausted r'
      then some r'
      else if turn.cancelled
      then some
          (record r' { retries = r'.retries + 1; delays = random (r'.backoff + 1) ∷ r'.delays })
      else rest

  unfoldable pub run : ℕ → (ℕ → Turn) → Subscriber → Option Running
  unfolding run_turns
  run fuel turns c = run_turns fuel turns (record {
    current = record { subscriber = c; acked = []; handed = [] };
    backoff = min_backoff;
    retries = 0;
    delays = [];
    sessions = 0;
  })

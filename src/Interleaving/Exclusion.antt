-- ===== src/Interleaving/Exclusion.antt =====
-- The send locks: the flushes of one key run one after another.
use goctopus.History.{add}
use goctopus.Engine.{queue_message, notify, Goctopus}
use goctopus.Prelude.{
  Bool-cases, Text, ℕ, ◌≡◌, refl, inl, inr, true, false, Option, none, some, List, [], ◌∷◌, arith,
  ℕ_discrete, text_key, nat_key,
}
use goctopus.Interleaving.{
  update, send_lock, take_acked, advance, Pc, Access, World, idle, waits, locked, snapshot, outer,
  inner, marked, wrote, failed, cleared, leaving, taken, counting, sweeps_key, sweeping, doomed,
  swept,
}
use goctopus.Interleaving.Runs.{
  goes, on_node, Event, System, Moves, Runs, schedules, sweeps_out, receives, accesses, enqueues,
  records, notifies, performs, begins, moves,
}
use goctopus.Prelude.{
  Bool-cases, Text, ℕ, ◌≡◌, refl, inl, inr, true, false, Option, none, some, List, [], ◌∷◌, arith,
  ℕ_discrete,
}
use goctopus.Message.{Platform}
use goctopus.Storage.{Storage}
use goctopus.Config.{Config}

-- The key whose send lock a goroutine has.
unfoldable pub owner : Pc → Option Text
owner idle = none
owner (waits key) = none
owner (locked key) = some key
owner (snapshot key cids) = some key
owner (outer key cids queue) = some key
owner (inner a rest) = some a.key
owner (marked a cid rest) = some a.key
owner (wrote a rest) = some a.key
owner (failed a cid rest) = some a.key
owner (cleared a cid rest) = some a.key
owner (leaving key) = some key
owner (taken id key) = none
owner counting = none
owner (sweeps_key key) = none
owner (sweeping key queue removed) = none
owner (doomed key m queue removed) = none
owner (swept removed) = none

module _ {S : Type 0} (hash : Text → ℕ) where
  -- A lock is taken exactly while one goroutine has it.
  pub record IsExclusive (s : System S) : Type 0 where
    pub owned :
        (i : ℕ) (key : Text) → owner (s.pcs i) ≡ some key → s.world.held (send_lock hash key) ≡ true
    pub unique :
        (i j : ℕ) (k l : Text)
        → owner (s.pcs i) ≡ some k
        → owner (s.pcs j) ≡ some l
        → send_lock hash k ≡ send_lock hash l
        → i ≡ j
    pub backed :
        (shard : ℕ)
        → s.world.held shard ≡ true
        → (i : ℕ) × (key : Text) × (owner (s.pcs i) ≡ some key) × (send_lock hash key ≡ shard)

  -- What an access does to the locks.
  data Locking (pc : Pc) (w w' : World S) (pc' : Pc) : Type 0 where
    keeps : w'.held ≡ w.held → owner pc' ≡ owner pc → Locking pc w w' pc'
    locks :
        (key : Text)
        → owner pc ≡ none
        → w.held (send_lock hash key) ≡ false
        → w'.held ≡ update w.held (send_lock hash key) true
        → owner pc' ≡ some key
        → Locking pc w w' pc'
    unlocks :
        (key : Text)
        → owner pc ≡ some key
        → w'.held ≡ update w.held (send_lock hash key) false
        → owner pc' ≡ none
        → Locking pc w w' pc'

  Locking-IsExclusive :
      {w' : World S} {pc' : Pc} (s : System S) (i : ℕ)
      → Locking (s.pcs i) s.world w' pc'
      → IsExclusive s
      → IsExclusive (record { world = w'; pcs = update s.pcs i pc' })
  unfolding update
  Locking-IsExclusive s i (keeps same own) v = record {
    owned = λ j key h. rw same (ground (arith, v.owned j key));
    unique = λ a b k l ha hb e. ground (arith, v.unique a b k l);
    backed =
        λ shard h. let (j, key, o, e) = v.backed shard (rw same at h) in (j, key, ground arith, e);
  }
  Locking-IsExclusive s i (locks key free off on own) v = record {
    owned = λ j k h. rw on (ground (arith, v.owned j k));
    unique = λ a b k l ha hb e. ground (arith, v.unique a b k l, v.owned a k, v.owned b l);
    backed = λ shard h. elim (ℕ_discrete (send_lock hash key) shard) [
      | yes e ↦ (i, key, ground arith, e)
      | no ne ↦ let (j, k, o, e) = v.backed shard (ground arith) in (j, k, ground arith, e)
    ];
  }
  Locking-IsExclusive s i (unlocks key mine off own) v = record {
    owned = λ j k h. rw off (ground (arith, v.owned j k, v.unique i j key k));
    unique = λ a b k l ha hb e. ground (arith, v.unique a b k l);
    backed = λ shard h. let (j, k, o, e) = v.backed shard (ground arith) in (j, k, ground arith, e);
  }

module _ {S : Type 0} (st : Storage S) (p : Platform) (hash : Text → ℕ) where
  advance-Locking :
      (e : Access) (pc : Pc) (w : World S)
      → let (w', pc') = advance st p hash e pc w in Locking hash pc w w' pc'
  unfolding advance owner
  advance-Locking e idle w = keeps refl refl
  advance-Locking e (waits key) w = elim (Bool-cases (w.held (send_lock hash key))) [
    | inl h ↦ rw h (keeps refl refl)
    | inr h ↦ rw h (locks key refl h refl refl)
  ]
  advance-Locking e (locked key) w = keeps refl refl
  advance-Locking e (snapshot key cids) w = keeps (ground arith) (ground arith)
  advance-Locking e (outer key cids []) w = keeps refl refl
  advance-Locking e (outer key cids (m ∷ queue)) w = keeps (ground arith) (ground arith)
  advance-Locking e (inner a []) w = keeps refl refl
  advance-Locking e (inner a (cid ∷ rest)) w = keeps (ground arith) (ground arith)
  advance-Locking e (marked a cid rest) w = keeps (ground arith) (ground arith)
  advance-Locking e (wrote a rest) w = keeps refl refl
  advance-Locking e (failed a cid rest) w = keeps refl refl
  advance-Locking e (cleared a cid rest) w = keeps refl refl
  advance-Locking e (leaving key) w = unlocks key refl refl refl
  advance-Locking e (taken id key) w = keeps refl refl
  advance-Locking e counting w = keeps refl refl
  advance-Locking e (sweeps_key key) w = keeps refl (ground arith)
  advance-Locking e (sweeping key [] removed) w = keeps refl (ground arith)
  advance-Locking e (sweeping key (m ∷ queue) removed) w = keeps refl (ground arith)
  advance-Locking e (doomed key m queue removed) w = keeps refl refl
  advance-Locking e (swept removed) w = keeps refl refl

module _ {S : Type 0} (st : Storage S) (p : Platform) (cfg : Config) (hash : Text → ℕ) where
  begins-IsExclusive :
      (s : System S) (i : ℕ) (w : World S) (pc : Pc)
      → s.pcs i ≡ idle
      → w.held ≡ s.world.held
      → owner pc ≡ none
      → IsExclusive hash s
      → IsExclusive hash (goes i (w, pc) s)
  unfolding owner
  begins-IsExclusive s i w pc at_idle same own v =
      Locking-IsExclusive hash s i (keeps same (rw at_idle own)) v

  on_node-IsExclusive :
      (f : Goctopus S → Goctopus S) (s : System S)
      → IsExclusive hash s
      → IsExclusive hash (on_node f s)
  on_node-IsExclusive f s v = record { owned = v.owned; unique = v.unique; backed = v.backed }

  Moves-IsExclusive :
      {s t : System S} {new : List Event}
      → Moves st p cfg hash s t new
      → IsExclusive hash s
      → IsExclusive hash t
  unfolding take_acked owner
  Moves-IsExclusive {s} (schedules i key at_idle) v =
      begins-IsExclusive s i s.world (waits key) at_idle refl refl v
  Moves-IsExclusive {s} (sweeps_out i key at_idle) v =
      begins-IsExclusive s i s.world (sweeps_key key) at_idle refl refl v
  Moves-IsExclusive {s} (receives i cid id payload at_idle named) v =
      let (w, pc) = take_acked cid id s.world in
      begins-IsExclusive s i w pc at_idle refl (ground arith) v
  Moves-IsExclusive {s} (accesses i e) v =
      Locking-IsExclusive hash s i (advance-Locking st p hash e (s.pcs i) s.world) v
  Moves-IsExclusive {s} (enqueues m) v = on_node-IsExclusive (queue_message st p m) s v
  Moves-IsExclusive {s} (records key m at) v =
      on_node-IsExclusive (λ g. record g { history = add key m at g.history }) s v
  Moves-IsExclusive {s} (notifies key) v = on_node-IsExclusive (notify st p key) s v
  Moves-IsExclusive {s} (performs {g} step whole) v = on_node-IsExclusive (λ _. g) s v

  -- In every state that the goroutines of an instance reach, however their accesses interleave, a
  -- send lock is taken exactly while a goroutine stands between the lock and the unlock of a flush
  -- of one of the lock's keys, and it is only one: the flushes of a key run one after another.
  pub Runs-IsExclusive :
      {s : System S} {trace : List Event} → Runs st p cfg hash s trace → IsExclusive hash s
  unfolding owner
  Runs-IsExclusive (begins x history limiter) = record {
    owned = λ i key h. cc;
    unique = λ i j k l hi hj e. cc;
    backed = λ shard h. cc;
  }
  Runs-IsExclusive (moves r m) = Moves-IsExclusive m (Runs-IsExclusive r)

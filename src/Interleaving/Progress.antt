-- ===== src/Interleaving/Progress.antt =====
-- A flush ends, whatever the other goroutines do between its accesses, so that none waits for a
-- send lock in vain.
use goctopus.Interleaving.Runs.{Event, System, Runs}
use goctopus.Interleaving.Exclusion.{owner, Runs-IsExclusive}
use goctopus.Engine.{clients_for_key}
use goctopus.Config.{Config}
use goctopus.Storage.{Storage}
use goctopus.Message.{Message, Platform}
use goctopus.Prelude.{
  Bool-cases, length, Text, ℕ, zero, suc, ◌+◌, ◌*◌, ◌≤◌, ◌≡◌, refl, ◌≢◌, ◌⊎◌, inl, inr, Bool, true,
  false, some, List, [], ◌∷◌, arith, text_key, nat_key,
}
use goctopus.Interleaving.{
  send_lock, advance, Place, Pc, Access, World, idle, waits, locked, snapshot, outer, inner, marked,
  wrote, failed, cleared, leaving, taken, counting, sweeps_key, sweeping, doomed, swept,
}

-- The most accesses that a flush makes from the head of its loop over the queue: two for a message,
-- four for a client, and two at the end.
abbrev pub loop_cost : List ℕ → List Message → ℕ
loop_cost cids [] = 2
loop_cost cids (m ∷ queue) = 2 + 4 * length cids + loop_cost cids queue

-- The same from the head of the loop over the clients.
abbrev pub rest_cost : Place → List ℕ → ℕ
rest_cost a rest = 4 * length rest + 1 + loop_cost a.clients a.queue

-- The same from where a goroutine stands, once it has read the queue.
unfoldable pub remaining : Pc → ℕ
remaining (outer key cids queue) = loop_cost cids queue
remaining (inner a rest) = rest_cost a rest
remaining (marked a cid rest) = rest_cost a rest + 3
remaining (wrote a rest) = rest_cost a rest + 1
remaining (failed a cid rest) = rest_cost a rest + 2
remaining (cleared a cid rest) = rest_cost a rest + 1
remaining (leaving key) = 1
remaining (taken id key) = 2
remaining counting = 1
remaining (sweeping key queue removed) = 2 * length queue + 2
remaining (doomed key m queue removed) = 2 * length queue + 3
remaining (swept removed) = 1
remaining pc = 0

-- Whether no more is to be read from the registry or from the queue.
unfoldable pub has_read : Pc → Bool
has_read (waits key) = false
has_read (locked key) = false
has_read (snapshot key cids) = false
has_read (sweeps_key key) = false
has_read pc = true

loop_cost-pos : (cids : List ℕ) (queue : List Message) → 1 ≤ loop_cost cids queue
loop_cost-pos cids [] = omega arith
loop_cost-pos cids (m ∷ queue) = omega arith

remaining-zero : (pc : Pc) → has_read pc ≡ true → remaining pc ≤ 0 → pc ≡ idle
unfolding remaining has_read
remaining-zero (outer key cids queue) h le = absurd (omega (arith, loop_cost-pos cids queue))
remaining-zero pc h le = ground arith

module _ {S : Type 0} (st : Storage S) (p : Platform) (hash : Text → ℕ) where
  -- Where a goroutine stands after a number of its accesses; the stream gives what each of them
  -- meets, and the world that the others have left there.
  unfoldable pub after : ℕ → (ℕ → Access × World S) → Pc → Pc
  unfolding advance
  after zero es pc = pc
  after (suc n) es pc = after n (λ k. es (suc k)) (advance st p hash (es 0).0 pc (es 0).1).1

  advance-remaining :
      (e : Access) (pc : Pc) (w : World S)
      → has_read pc ≡ true
      → let pc' = (advance st p hash e pc w).1 in
        (has_read pc' ≡ true) × ((remaining pc' + 1 ≤ remaining pc) ⊎ ((pc ≡ idle) × (pc' ≡ idle)))
  unfolding advance remaining has_read
  advance-remaining e idle w h = (refl, inr (refl, refl))
  advance-remaining e (outer key cids []) w h = (refl, inl (omega arith))
  advance-remaining e (outer key cids (m ∷ queue)) w h = (ground arith, ground arith)
  advance-remaining e (inner a []) w h = (refl, inl (omega arith))
  advance-remaining e (inner a (cid ∷ rest)) w h = (ground arith, ground arith)
  advance-remaining e (marked a cid rest) w h = (ground arith, ground arith)
  advance-remaining e (wrote a rest) w h = (refl, inl (omega arith))
  advance-remaining e (failed a cid rest) w h = (refl, inl (omega arith))
  advance-remaining e (cleared a cid rest) w h = (refl, inl (omega arith))
  advance-remaining e (leaving key) w h = (refl, inl (omega arith))
  advance-remaining e (taken id key) w h = (refl, inl (omega arith))
  advance-remaining e counting w h = (refl, inl (omega arith))
  advance-remaining e (sweeping key [] removed) w h = (ground arith, ground arith)
  advance-remaining e (sweeping key (m ∷ queue) removed) w h = (ground arith, ground arith)
  advance-remaining e (doomed key m queue removed) w h = (refl, inl (omega arith))
  advance-remaining e (swept removed) w h = (refl, inl (omega arith))
  advance-remaining e pc w h = ground arith

  -- Once a goroutine has read what it works on, it ends with no more than `remaining` accesses.
  pub after-remaining :
      (n : ℕ) (es : ℕ → Access × World S) (pc : Pc)
      → has_read pc ≡ true
      → remaining pc ≤ n
      → after n es pc ≡ idle
  unfolding after remaining
  after-remaining zero es pc read le = remaining-zero pc read le
  after-remaining (suc n) es pc read le =
      let (next, step) = advance-remaining (es 0).0 pc (es 0).1 read in
      let small : remaining (advance st p hash (es 0).0 pc (es 0).1).1 ≤ n = elim step [
        | inl less ↦ omega arith
        | inr (_, ended) ↦ rw ended (omega arith)
      ] in
      after-remaining n (λ k. es (suc k)) (advance st p hash (es 0).0 pc (es 0).1).1 next small

  -- A goroutine ends, whatever its accesses meet.
  abbrev pub Ends : Pc → Type 0
  Ends pc = (es : ℕ → Access × World S) → (n : ℕ) × (after n es pc ≡ idle)

  Ends-read : (pc : Pc) → has_read pc ≡ true → Ends pc
  Ends-read pc read es = (remaining pc, after-remaining (remaining pc) es pc read (omega arith))

  Ends-access :
      (pc : Pc) → ((e : Access) (w : World S) → Ends (advance st p hash e pc w).1) → Ends pc
  unfolding after
  Ends-access pc next es =
      let (n, ended) = next (es 0).0 (es 0).1 (λ k. es (suc k)) in (suc n, ended)

  Ends-snapshot : (key : Text) (cids : List ℕ) → Ends (snapshot key cids)
  unfolding advance has_read
  Ends-snapshot key cids = Ends-access (snapshot key cids) (λ e w. Ends-read _ (ground arith))

  Ends-owner : (pc : Pc) (key : Text) → owner pc ≡ some key → Ends pc
  unfolding owner has_read advance
  Ends-owner (locked k) key h =
      Ends-access (locked k)
        (λ e w. Ends-snapshot k (clients_for_key p k w.node.conns w.node.patterns))
  Ends-owner (snapshot k cids) key h = Ends-snapshot k cids
  Ends-owner pc key h = Ends-read pc (ground arith)

module _ {S : Type 0} (st : Storage S) (p : Platform) (cfg : Config) (hash : Text → ℕ) where
  -- No deadlock: in every state that the goroutines reach, if one waits for the send lock of its
  -- key, then either the lock is free and its next access takes it, or another goroutine has it,
  -- and gives it back after finitely many accesses, whatever those meet and whatever happens
  -- between them.
  pub waits-Ends :
      {s : System S} {trace : List Event} (i : ℕ) (key : Text) (e : Access)
      → Runs st p cfg hash s trace
      → s.pcs i ≡ waits key
      → ((advance st p hash e (s.pcs i) s.world).1 ≡ locked key)
        ⊎ ((j : ℕ) × (k : Text) × (j ≢ i)
            × (owner (s.pcs j) ≡ some k)
            × (send_lock hash k ≡ send_lock hash key)
            × Ends st p hash (s.pcs j))
  unfolding advance owner
  waits-Ends {s} i key e r here = elim (Bool-cases (s.world.held (send_lock hash key))) [
    | inl h ↦
        let (j, k, own, same) = (Runs-IsExclusive st p cfg hash r).backed _ h in
        inr (j, k, ground arith, own, same, Ends-owner st p hash (s.pcs j) k own)
    | inr h ↦ inl (rw (here, advance, h) refl)
  ]

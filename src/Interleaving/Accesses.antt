-- ===== src/Interleaving/Accesses.antt =====
-- What an access leaves alone: the registry, and the numbers that no client has yet.
use goctopus.Server.Sockets.{keys-close, store-IsQuiet}
use goctopus.Client.Inflight.{IsClosedOnce, close-IsClosedOnce}
use goctopus.Server.Quiet.{IsQuiet-refl, same-IsQuiet, IsQuiet}
use goctopus.Client.{write, write_message, mark_inflight, clear_inflight, close, Client}
use goctopus.Registry.Invariant.{IsRegistry}
use goctopus.Engine.Lookup.{has-clients_for_key}
use goctopus.Ack.{count_delivered}
use goctopus.Engine.{store, delete_msg_by_id, Goctopus}
use goctopus.Storage.{Storage}
use goctopus.Message.{Platform}
use goctopus.Prelude.{
  Bool-cases, Text, has, has-append, ℕ, ◌<◌, ◌≡◌, refl, inl, inr, true, List, [], ◌∷◌, ◌++◌, arith,
  text_key, nat_key,
}
use goctopus.Interleaving.{
  after_reply, at_client, observe, advance, Pc, Access, World, idle, waits, locked, snapshot, outer,
  inner, marked, wrote, failed, cleared, leaving, taken, counting, sweeps_key, sweeping, doomed,
  swept,
}
use goctopus.Interleaving.Inflight.{Blank}

-- The clients that a goroutine is yet to look at.
unfoldable pub holds_on : Pc → List ℕ
holds_on (snapshot key cids) = cids
holds_on (outer key cids queue) = cids
holds_on (inner a rest) = rest ++ a.clients
holds_on (marked a cid rest) = cid ∷ rest ++ a.clients
holds_on (wrote a rest) = rest ++ a.clients
holds_on (failed a cid rest) = cid ∷ rest ++ a.clients
holds_on (cleared a cid rest) = cid ∷ rest ++ a.clients
holds_on pc = []

abbrev pub IsInUse : {S : Type 0} → Goctopus S → Pc → Type 0
IsInUse g pc = (x : ℕ) → has x (holds_on pc) ≡ true → x < g.next

module _ {S : Type 0} where
  pub at_client-IsQuiet :
      (cid : ℕ) (c : Client) (w : World S)
      → c.keys ≡ (w.node.clients cid).keys
      → (IsClosedOnce (w.node.clients cid) → IsClosedOnce c)
      → IsQuiet w.node (at_client cid c w).node
  unfolding at_client
  at_client-IsQuiet cid c w k h = store-IsQuiet cid c w.node k h

module _ {S : Type 0} (st : Storage S) (p : Platform) (hash : Text → ℕ) where
  pub advance-IsInUse :
      (e : Access) (pc : Pc) (w : World S)
      → IsRegistry w.node
      → IsInUse w.node pc
      → IsInUse w.node (advance st p hash e pc w).1
  unfolding advance holds_on has after_reply
  advance-IsInUse e idle w v h x b = ground arith
  advance-IsInUse e (waits key) w v h x b = ground arith
  advance-IsInUse e (locked key) w v h x b =
      let (k, _, found) =
        ((has-clients_for_key p key w.node.conns w.node.patterns v.patterns_known).0 x).0 b in
      (v.own_keys k x found).1
  advance-IsInUse e (snapshot key cids) w v h x b = ground (arith, h x)
  advance-IsInUse e (outer key cids []) w v h x b = ground arith
  advance-IsInUse e (outer key cids (m ∷ queue)) w v h x b =
      ground (arith, h x, has-append x cids cids)
  advance-IsInUse e (inner a []) w v h x b = ground (arith, h x)
  advance-IsInUse e (inner a (cid ∷ rest)) w v h x b = ground (arith, h x)
  advance-IsInUse e (sweeping key [] removed) w v h x b = ground arith
  advance-IsInUse e (sweeping key (m ∷ queue) removed) w v h x b = ground arith
  advance-IsInUse e pc w v h x b = ground (arith, h x)

  pub advance-Blank :
      (e : Access) (pc : Pc) (w : World S)
      → IsInUse w.node pc
      → Blank w.node
      → Blank (advance st p hash e pc w).0.node
  unfolding advance holds_on has at_client store observe delete_msg_by_id count_delivered
      mark_inflight write_message write clear_inflight close
  advance-Blank e idle w h b x le = b x le
  advance-Blank e (waits key) w h b x le = ground (arith, b x)
  advance-Blank e (locked key) w h b x le = b x le
  advance-Blank e (snapshot key cids) w h b x le = ground (arith, b x)
  advance-Blank e (outer key cids []) w h b x le = b x le
  advance-Blank e (outer key cids (m ∷ queue)) w h b x le = ground (arith, b x)
  advance-Blank e (inner a []) w h b x le = b x le
  advance-Blank e (inner a (cid ∷ rest)) w h b x le = ground (arith, b x, h cid)
  advance-Blank e (marked a cid rest) w h b x le = ground (arith, b x, h cid)
  advance-Blank e (wrote a rest) w h b x le = b x le
  advance-Blank e (failed a cid rest) w h b x le = ground (arith, b x, h cid)
  advance-Blank e (cleared a cid rest) w h b x le = ground (arith, b x, h cid)
  advance-Blank e (leaving key) w h b x le = b x le
  advance-Blank e (taken id key) w h b x le = b x le
  advance-Blank e counting w h b x le = b x le
  advance-Blank e (sweeps_key key) w h b x le = b x le
  advance-Blank e (sweeping key [] removed) w h b x le = b x le
  advance-Blank e (sweeping key (m ∷ queue) removed) w h b x le = b x le
  advance-Blank e (doomed key m queue removed) w h b x le = b x le
  advance-Blank e (swept removed) w h b x le = b x le

  pub advance-IsQuiet :
      (e : Access) (pc : Pc) (w : World S) → IsQuiet w.node (advance st p hash e pc w).0.node
  unfolding advance observe delete_msg_by_id count_delivered mark_inflight write_message write
      clear_inflight
  advance-IsQuiet e (waits key) w =
      same-IsQuiet w.node _ (ground arith) (ground arith) (ground arith) (ground arith)
  advance-IsQuiet e (snapshot key cids) w =
      same-IsQuiet w.node _ (ground arith) (ground arith) (ground arith) (ground arith)
  advance-IsQuiet e (outer key cids []) w = IsQuiet-refl w.node
  advance-IsQuiet e (outer key cids (m ∷ queue)) w =
      same-IsQuiet w.node _ (ground arith) (ground arith) (ground arith) (ground arith)
  advance-IsQuiet e (inner a []) w = IsQuiet-refl w.node
  advance-IsQuiet e (inner a (cid ∷ rest)) w =
      let outcome = mark_inflight a.message.id a.key (w.node.clients cid) in
      elim (Bool-cases outcome.0) [
        | inl first ↦
            rw first (at_client-IsQuiet cid outcome.1 w (ground arith) (λ h. ground arith))
        | inr again ↦ rw again (IsQuiet-refl w.node)
      ]
  advance-IsQuiet e (marked a cid rest) w =
      at_client-IsQuiet cid _ w (ground arith) (λ h. ground arith)
  advance-IsQuiet e (failed a cid rest) w = at_client-IsQuiet cid _ w refl (λ h. h)
  advance-IsQuiet e (cleared a cid rest) w =
      at_client-IsQuiet cid _ w (keys-close (w.node.clients cid))
        (λ h. (close-IsClosedOnce (w.node.clients cid) h).0)
  advance-IsQuiet e idle w = IsQuiet-refl w.node
  advance-IsQuiet e (locked key) w = IsQuiet-refl w.node
  advance-IsQuiet e (wrote a rest) w = same-IsQuiet w.node _ refl refl refl refl
  advance-IsQuiet e (leaving key) w = IsQuiet-refl w.node
  advance-IsQuiet e (taken id key) w = same-IsQuiet w.node _ refl refl refl refl
  advance-IsQuiet e counting w = same-IsQuiet w.node _ refl refl refl refl
  advance-IsQuiet e (sweeps_key key) w = same-IsQuiet w.node _ refl refl refl refl
  advance-IsQuiet e (sweeping key [] removed) w = IsQuiet-refl w.node
  advance-IsQuiet e (sweeping key (m ∷ queue) removed) w = IsQuiet-refl w.node
  advance-IsQuiet e (doomed key m queue removed) w = same-IsQuiet w.node _ refl refl refl refl
  advance-IsQuiet e (swept removed) w = same-IsQuiet w.node _ refl refl refl refl

-- ===== src/Interleaving/Known.antt =====
-- The clients that a goroutine holds on to are in use, and the numbers that no client has yet have
-- nothing in flight.
use goctopus.Interleaving.Accesses.{
  holds_on, IsInUse, at_client-IsQuiet, advance-IsInUse, advance-Blank, advance-IsQuiet,
}
use goctopus.Server.{started}
use goctopus.Config.{Config}
use goctopus.Prelude.GoMap.{lookup}
use goctopus.Server.Quiet.{IsQuiet-refl, same-IsQuiet, IsQuiet}
use goctopus.Client.{new_client, take_inflight}
use goctopus.Server.Soundness.{IsQuiet-IsSound, Step-IsSound, started-IsSound, IsSound}
use goctopus.Engine.{store, queue_message, notify, Goctopus}
use goctopus.Storage.{Storage}
use goctopus.Message.{Platform}
use goctopus.Prelude.{Text, has, ℕ, ◌≡◌, refl, ◌∙◌, List, arith, text_key, nat_key}
use goctopus.Interleaving.{update, at_client, take_acked, Pc, World, waits, sweeps_key}
use goctopus.Interleaving.Runs.{
  goes, on_node, Event, System, Moves, Runs, schedules, sweeps_out, receives, accesses, enqueues,
  records, notifies, performs, begins, moves,
}
use goctopus.Interleaving.Inflight.{Blank, IsWhole-KeepsInflight}

pub record IsKnown {S : Type 0} (s : System S) : Type 0 where
  pub sound : IsSound s.world.node
  pub blank : Blank s.world.node
  pub in_use : (i : ℕ) → IsInUse s.world.node (s.pcs i)

module _ {S : Type 0} where
  -- The moving goroutine, and the others.
  goes-IsKnown :
      (s : System S) (i : ℕ) (w : World S) (pc : Pc)
      → IsQuiet s.world.node w.node
      → Blank w.node
      → IsInUse s.world.node pc
      → IsKnown s
      → IsKnown (goes i (w, pc) s)
  unfolding update
  goes-IsKnown s i w pc quiet blank use_of v = record {
    sound = IsQuiet-IsSound quiet v.sound;
    blank = blank;
    in_use = λ j x h. rw quiet.next (ground (arith, v.in_use j x, use_of x));
  }

  take_acked-IsQuiet : (cid id : ℕ) (w : World S) → IsQuiet w.node (take_acked cid id w).0.node
  unfolding take_acked take_inflight
  take_acked-IsQuiet cid id w = at_client-IsQuiet cid _ w (ground arith) (λ h. ground arith)

  take_acked-Blank : (cid id : ℕ) (w : World S) → Blank w.node → Blank (take_acked cid id w).0.node
  unfolding take_acked take_inflight at_client store lookup
  take_acked-Blank cid id w b x le = ground (arith, b x)

  same-IsKnown :
      (s : System S) (g : Goctopus S)
      → g.conns ≡ s.world.node.conns
      → g.patterns ≡ s.world.node.patterns
      → g.next ≡ s.world.node.next
      → g.clients ≡ s.world.node.clients
      → IsKnown s
      → IsKnown (on_node (λ _. g) s)
  same-IsKnown s g c pats n e v = record {
    sound = IsQuiet-IsSound (same-IsQuiet s.world.node g c pats n e) v.sound;
    blank = rw (n, e) v.blank;
    in_use = rw n v.in_use;
  }

module _ {S : Type 0} (st : Storage S) (p : Platform) (cfg : Config) (hash : Text → ℕ) where
  Moves-IsKnown :
      {s t : System S} {new : List Event} → Moves st p cfg hash s t new → IsKnown s → IsKnown t
  unfolding holds_on has take_acked queue_message notify
  Moves-IsKnown {s} (schedules i key at_idle) v =
      goes-IsKnown s i s.world (waits key) (IsQuiet-refl s.world.node) v.blank (λ x h. ground arith)
        v
  Moves-IsKnown {s} (sweeps_out i key at_idle) v =
      goes-IsKnown s i s.world (sweeps_key key) (IsQuiet-refl s.world.node) v.blank
        (λ x h. ground arith) v
  Moves-IsKnown {s} (receives i cid id payload at_idle named) v =
      goes-IsKnown s i _ _ (take_acked-IsQuiet cid id s.world)
        (take_acked-Blank cid id s.world v.blank) (λ x h. ground arith) v
  Moves-IsKnown {s} (accesses i e) v =
      goes-IsKnown s i _ _ (advance-IsQuiet st p hash e (s.pcs i) s.world)
        (advance-Blank st p hash e (s.pcs i) s.world (v.in_use i) v.blank)
        (advance-IsInUse st p hash e (s.pcs i) s.world v.sound.registry (v.in_use i)) v
  Moves-IsKnown {s} (enqueues m) v = same-IsKnown s _ refl refl refl refl v
  Moves-IsKnown {s} (records key m at) v = same-IsKnown s _ refl refl refl refl v
  Moves-IsKnown {s} (notifies key) v =
      same-IsKnown s _ (ground arith) (ground arith) (ground arith) (ground arith) v
  Moves-IsKnown {s} (performs {g} step whole) v =
      let kept = IsWhole-KeepsInflight st p cfg step whole in
      record {
        sound = Step-IsSound st p cfg step v.sound;
        blank = λ x le. kept.inflight v.blank x ∙ v.blank x (omega (arith, kept.grows));
        in_use = λ j x h. omega (arith, v.in_use j x h, kept.grows);
      }

  -- In every state that the goroutines reach, whatever accesses of others stand between those of
  -- a flush or an acknowledgement: the invariant of an instance holds, a number that no client has
  -- yet has nothing in flight, and the clients that a flush is yet to look at are in use.
  pub Runs-IsKnown : {s : System S} {trace : List Event} → Runs st p cfg hash s trace → IsKnown s
  unfolding started new_client holds_on has
  Runs-IsKnown (begins x history limiter) = record {
    sound = started-IsSound st p cfg x history limiter;
    blank = λ x le. refl;
    in_use = λ i x h. ground arith;
  }
  Runs-IsKnown (moves r m) = Moves-IsKnown m (Runs-IsKnown r)

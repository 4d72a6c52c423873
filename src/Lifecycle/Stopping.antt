-- ===== src/Lifecycle/Stopping.antt =====
-- `Stop` closes the connections of an instance.
use goctopus.Frames.{close_client}
use goctopus.Server.{Reach, closes, steps}
use goctopus.Message.{Platform}
use goctopus.Storage.{Storage}
use goctopus.Engine.{store, conns_of, Goctopus}
use goctopus.Config.{Config}
use goctopus.Lifecycle.{close_all, close_conns, stop}
use goctopus.Client.{close}
use goctopus.Prelude.GoMap.{Map, lookup}
use goctopus.Prelude.{
  decide, Text, has, ℕ, ◌≡◌, ap, true, ◌||◌, List, [], ◌∷◌, arith, ℕ_discrete, text_key, nat_key,
}

module _ {S : Type 0} where
  close_client-closed :
      (cid x : ℕ) (g : Goctopus S)
      → ((close_client cid g).clients x).closed
        ≡ ((g.clients x).closed || decide (ℕ_discrete cid x))
  unfolding close_client store close
  close_client-closed cid x g = ground (arith, ap (λ y. (g.clients y).closed))

  close_all-closed :
      (cids : List ℕ) (x : ℕ) (g : Goctopus S)
      → ((close_all cids g).clients x).closed ≡ ((g.clients x).closed || has x cids)
  unfolding close_all has
  close_all-closed [] x g = ground arith
  close_all-closed (cid ∷ cids) x g =
      ground (arith, close_all-closed cids x (close_client cid g), close_client-closed cid x g)

  close_conns-closed :
      (conns : Map Text (List ℕ)) (k : Text) (x : ℕ) (g : Goctopus S)
      → ((g.clients x).closed || has x (conns_of conns k)) ≡ true
      → ((close_conns conns g).clients x).closed ≡ true
  unfolding close_conns conns_of lookup has
  close_conns-closed [] k x g h = ground arith
  close_conns-closed ((j, cids) ∷ conns) k x g h =
      close_conns-closed conns k x (close_all cids g) (ground (arith, close_all-closed cids x g))

  module _ (st : Storage S) (p : Platform) (cfg : Config) where
    close_all-Reach :
        (cids : List ℕ) (g : Goctopus S) → Reach st p cfg g → Reach st p cfg (close_all cids g)
    unfolding close_all
    close_all-Reach [] g r = r
    close_all-Reach (cid ∷ cids) g r = close_all-Reach cids _ (steps r (closes cid))

    pub close_conns-Reach :
        (conns : Map Text (List ℕ)) (g : Goctopus S)
        → Reach st p cfg g
        → Reach st p cfg (close_conns conns g)
    unfolding close_conns
    close_conns-Reach [] g r = r
    close_conns-Reach ((k, cids) ∷ conns) g r = close_conns-Reach conns _ (close_all-Reach cids g r)

    -- From a state that the instance reaches, stopping is made of its steps, and afterwards every
    -- connection that stood under some key is closed.
    pub stop_closes :
        (g : Goctopus S) (k : Text) (x : ℕ)
        → Reach st p cfg g
        → has x (conns_of g.conns k) ≡ true
        → Reach st p cfg (stop g) × (((stop g).clients x).closed ≡ true)
    unfolding stop
    stop_closes g k x r h =
        (close_conns-Reach g.conns g r, close_conns-closed g.conns k x g (ground arith))

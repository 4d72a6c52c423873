-- ===== src/Server/Sockets.antt =====
-- The writes of a pong or a ping to a client, and its closing, leave the registry alone.
use goctopus.Engine.{store, Goctopus}
use goctopus.Server.Quiet.{IsQuiet}
use goctopus.Client.Inflight.{IsClosedOnce, close-IsClosedOnce}
use goctopus.Client.{write, write_ping, write_pong, close, Client}
use goctopus.Frames.{answer_ping, ping_client, close_client}
use goctopus.Prelude.{Text, ℕ, ◌≡◌, refl, sym, ap, subst, ite, Bool, true, false, arith, ℕ_discrete}

pub keys-close : (c : Client) → (close c).keys ≡ c.keys
unfolding close
keys-close c = ground arith

module _ {S : Type 0} where
  -- A write to a client that leaves its keys, and closes it properly if at all.
  pub store-IsQuiet :
      (cid : ℕ) (c : Client) (g : Goctopus S)
      → c.keys ≡ (g.clients cid).keys
      → (IsClosedOnce (g.clients cid) → IsClosedOnce c)
      → IsQuiet g (record g { clients = store g.clients cid c })
  unfolding store
  store-IsQuiet cid c g keys closing = record {
    conns = refl;
    patterns = refl;
    next = refl;
    keys = λ x. ground (arith, ap (λ y. (g.clients y).keys));
    closing = λ x v. elim (ℕ_discrete cid x) as (λ d. IsClosedOnce (ite d c (g.clients x))) [
      | yes e ↦ closing (subst (λ y. IsClosedOnce (g.clients y)) (sym e) v)
      | no e ↦ v
    ];
  }

  pub answer_ping-IsQuiet :
      (cid : ℕ) (writes : Bool) (payload : Text) (g : Goctopus S)
      → IsQuiet g (answer_ping cid writes payload g).1
  unfolding answer_ping write_pong write
  answer_ping-IsQuiet cid true payload g = store-IsQuiet cid _ g refl λ v. v
  answer_ping-IsQuiet cid false payload g = store-IsQuiet cid _ g refl λ v. v

  pub ping_client-IsQuiet :
      (cid : ℕ) (writes : Bool) (g : Goctopus S) → IsQuiet g (ping_client cid writes g).1
  unfolding ping_client write_ping write
  ping_client-IsQuiet cid true g = store-IsQuiet cid _ g refl λ v. v
  ping_client-IsQuiet cid false g = store-IsQuiet cid _ g refl λ v. v

  pub close_client-IsQuiet : (cid : ℕ) (g : Goctopus S) → IsQuiet g (close_client cid g)
  unfolding close_client
  close_client-IsQuiet cid g =
      store-IsQuiet cid _ g (keys-close (g.clients cid))
        λ v. (close-IsClosedOnce (g.clients cid) v).0

  pub answer_ping-storage :
      (cid : ℕ) (writes : Bool) (payload : Text) (g : Goctopus S)
      → (answer_ping cid writes payload g).1.storage ≡ g.storage
  unfolding answer_ping write_pong write
  answer_ping-storage cid writes payload g = ground arith

  pub ping_client-storage :
      (cid : ℕ) (writes : Bool) (g : Goctopus S) → (ping_client cid writes g).1.storage ≡ g.storage
  unfolding ping_client write_ping write
  ping_client-storage cid writes g = ground arith

  pub close_client-storage : (cid : ℕ) (g : Goctopus S) → (close_client cid g).storage ≡ g.storage
  unfolding close_client
  close_client-storage cid g = refl

-- ===== src/Delivery/Pass.antt =====
-- What a flush does to one client, and to the heap of clients.
use goctopus.Prelude.{
  if◌then◌else◌, Text, ℕ, ◌+◌, ◌≡◌, ite, Bool, true, [], ◌∷◌, ◌++◌, arith, ℕ_discrete, nat_key,
}
use goctopus.Prelude.GoMap.{insert, delete, lookup-insert}
use goctopus.Message.{Message, Platform, text}
use goctopus.Client.{write_message, mark_inflight, clear_inflight, close, Client, text}
use goctopus.Client.Inflight.{refuses}
use goctopus.Engine.{Goctopus}
use goctopus.Delivery.{deliver, Flush}

-- One attempt at one client, seen from the client alone.
unfoldable pub delivered : Text → Message → Text → Bool → Client → Client
delivered key m payload succeeds c =
    if refuses m.id c
    then c
    else if succeeds
    then record c {
      inflight = insert m.id key c.inflight;
      written = c.written ++ text payload ∷ [];
    }
    else record c {
      inflight = delete m.id (insert m.id key c.inflight);
      closed = true;
      done = c.done + 1;
    }

module _ (key : Text) (m : Message) (payload : Text) (succeeds : Bool) where
  pub refuses-delivered_mono :
      (id : ℕ) (c : Client)
      → refuses id c ≡ true
      → refuses id (delivered key m payload succeeds c) ≡ true
  unfolding delivered refuses
  refuses-delivered_mono id c h = ground (arith, lookup-insert m.id id key c.inflight)

  pub refuses-delivered : (c : Client) → refuses m.id (delivered key m payload succeeds c) ≡ true
  unfolding delivered refuses
  refuses-delivered c = ground (arith, lookup-insert m.id m.id key c.inflight)

  pub delivered_refused :
      (c : Client) → refuses m.id c ≡ true → delivered key m payload succeeds c ≡ c
  unfolding delivered
  delivered_refused c h = rw h

module _ {S : Type 0} (p : Platform) (f : Flush) (key : Text) where
  pub deliver-clients :
      (m : Message) (payload : Text) (cid x : ℕ) (g : Goctopus S)
      → (deliver p f key m payload cid g).clients x
        ≡ ite
            (ℕ_discrete cid x)
            (delivered key m payload (f.writes cid m.id) (g.clients x))
            (g.clients x)
  unfolding deliver delivered mark_inflight refuses write_message close clear_inflight
  deliver-clients m payload cid x g = ground arith

-- ===== src/Interleaving/Inflight.antt =====
-- What the whole operations do to what is in flight: nothing.
use goctopus.Constants.{header_origin}
use goctopus.Auth.Backend.{allow-SameService}
use goctopus.Request.{get_text, Request}
use goctopus.Server.Handlers.{handle_http-SameClients}
use goctopus.Auth.{allow, count_auth_fail}
use goctopus.Frames.{answer_ping, ping_client, close_client}
use goctopus.Connect.{accept, authorize, handle_ws, Upgrade}
use goctopus.Registry.{save_key, save_keys, register, remove_key, remove_keys, remove_client}
use goctopus.Server.{
  Step, serves, publishes, connects, flushes, acknowledges, leaves, lists, purges, pongs, pings,
  closes, sweeps,
}
use goctopus.Client.{new_client, write, write_ping, write_pong, close, Client}
use goctopus.Engine.{store, Goctopus}
use goctopus.Config.{origin_allowed, Config}
use goctopus.Storage.{Storage}
use goctopus.Message.{Platform}
use goctopus.Prelude.{
  Bool-cases, Option-cases, Text, ℕ, ◌+◌, ◌≤◌, ◌≡◌, refl, ap, ◌∙◌, inl, inr, Bool, List, [], ◌∷◌,
  arith, text_key, nat_key,
}
use goctopus.Interleaving.Runs.{IsWhole}

-- The numbers that no client has yet have nothing in flight.
abbrev pub Blank : {S : Type 0} → Goctopus S → Type 0
Blank g = (x : ℕ) → g.next ≤ x → (g.clients x).inflight ≡ []

pub record KeepsInflight {S : Type 0} (g g' : Goctopus S) : Type 0 where
  pub grows : g.next ≤ g'.next
  pub inflight : Blank g → (x : ℕ) → (g'.clients x).inflight ≡ (g.clients x).inflight

same-KeepsInflight :
    {S : Type 0} (g g' : Goctopus S)
    → g'.next ≡ g.next
    → g'.clients ≡ g.clients
    → KeepsInflight g g'
same-KeepsInflight g g' n c = record {
  grows = omega arith;
  inflight = λ blank x. ap (λ heap. (heap x).inflight) c;
}

close-inflight : (c : Client) → (close c).inflight ≡ c.inflight
unfolding close
close-inflight c = ground arith

module _ {S : Type 0} where
  store-KeepsInflight :
      (cid : ℕ) (c : Client) (g : Goctopus S)
      → c.inflight ≡ (g.clients cid).inflight
      → KeepsInflight g (record g { clients = store g.clients cid c })
  unfolding store
  store-KeepsInflight cid c g same = record {
    grows = omega arith;
    inflight = λ blank x. ground (arith, ap (λ y. (g.clients y).inflight));
  }

  save_keys-keeps :
      (cid : ℕ) (keys : List Text) (g : Goctopus S)
      → ((save_keys cid keys g).clients ≡ g.clients) × ((save_keys cid keys g).next ≡ g.next)
  unfolding save_keys save_key
  save_keys-keeps cid [] g = (refl, refl)
  save_keys-keeps cid (key ∷ keys) g = save_keys-keeps cid keys (save_key cid key g)

  remove_keys-keeps :
      (cid : ℕ) (keys : List Text) (g : Goctopus S)
      → ((remove_keys cid keys g).clients ≡ g.clients) × ((remove_keys cid keys g).next ≡ g.next)
  unfolding remove_keys remove_key
  remove_keys-keeps cid [] g = (refl, refl)
  remove_keys-keeps cid (key ∷ keys) g =
      let (c, n) = remove_keys-keeps cid keys (remove_key cid key g) in
      (c ∙ ground arith, n ∙ ground arith)

  register-KeepsInflight :
      (keys : List Text) (compress : Bool) (g : Goctopus S)
      → KeepsInflight g (register keys compress g)
  unfolding register store new_client
  register-KeepsInflight keys compress g =
      let made : Goctopus S = record g {
        clients = store g.clients g.next (new_client keys compress);
        next = g.next + 1;
      } in
      let (c, n) = save_keys-keeps g.next keys made in
      record { grows = rw n (omega arith); inflight = λ blank x. rw c (ground (arith, blank x)) }

  remove_client-KeepsInflight : (cid : ℕ) (g : Goctopus S) → KeepsInflight g (remove_client cid g)
  unfolding remove_client
  remove_client-KeepsInflight cid g =
      let closed : Goctopus S = record g {
        clients = store g.clients cid (close (g.clients cid));
      } in
      let (c, n) = remove_keys-keeps cid (g.clients cid).keys closed in
      let stored =
        store-KeepsInflight cid (close (g.clients cid)) g (close-inflight (g.clients cid)) in
      record { grows = rw n (omega arith); inflight = λ blank x. rw c (stored.inflight blank x) }

  pings-KeepsInflight :
      (cid : ℕ) (writes : Bool) (g : Goctopus S) → KeepsInflight g (ping_client cid writes g).1
  unfolding ping_client write_ping write
  pings-KeepsInflight cid writes g = store-KeepsInflight cid _ g (ground arith)

  pongs-KeepsInflight :
      (cid : ℕ) (writes : Bool) (payload : Text) (g : Goctopus S)
      → KeepsInflight g (answer_ping cid writes payload g).1
  unfolding answer_ping write_pong write
  pongs-KeepsInflight cid writes payload g = store-KeepsInflight cid _ g (ground arith)

module _ {S : Type 0} (st : Storage S) (p : Platform) (cfg : Config) where
  authorize-KeepsInflight :
      (u : Upgrade) (g : Goctopus S) → KeepsInflight g (authorize st p cfg u g).1
  unfolding authorize accept count_auth_fail
  authorize-KeepsInflight u g = elim (Option-cases u.authorized) [
    | inl e ↦ rw (e, authorize) (same-KeepsInflight g _ refl refl)
    | inr (keys, e) ↦ elim (Option-cases u.handshake) [
      | inl d ↦ rw (e, d, authorize, accept) (same-KeepsInflight g g refl refl)
      | inr (compress, d) ↦ rw (e, d, authorize, accept) (register-KeepsInflight keys compress g)
    ]
  ]

  after_same :
      {a b c : Goctopus S}
      → b.next ≡ a.next
      → b.clients ≡ a.clients
      → KeepsInflight b c
      → KeepsInflight a c
  after_same {a} n e h = record {
    grows = rw n at h.grows;
    inflight = λ blank x. h.inflight (rw (n, e) blank) x ∙ ap (λ heap. (heap x).inflight) e;
  }

  handle_ws-KeepsInflight :
      (r : Request) (u : Upgrade) (g : Goctopus S) → KeepsInflight g (handle_ws st p cfg r u g).1
  unfolding handle_ws
  handle_ws-KeepsInflight r u g =
      let g' = (allow p cfg r u.now g).1 in
      let same = allow-SameService p cfg r u.now g in
      let kept = same-KeepsInflight g g' same.next same.clients in
      elim (Bool-cases (allow p cfg r u.now g).0) [
        | inl e ↦ elim (Bool-cases (origin_allowed cfg (get_text header_origin r.headers))) [
          | inl o ↦ rw (e, o) (after_same same.next same.clients (authorize-KeepsInflight u g'))
          | inr o ↦ rw (e, o) kept
        ]
        | inr e ↦ rw e kept
      ]

  -- Each of the whole operations keeps what is in flight at every client.
  pub IsWhole-KeepsInflight :
      {g g' : Goctopus S} (step : Step st p cfg g g') → IsWhole st p cfg step → KeepsInflight g g'
  unfolding close_client
  IsWhole-KeepsInflight {g} (serves t r) _ =
      let same = handle_http-SameClients st p cfg t r g in
      same-KeepsInflight g _ same.next same.clients
  IsWhole-KeepsInflight {g} (connects r u) _ = handle_ws-KeepsInflight r u g
  IsWhole-KeepsInflight {g} (leaves cid) _ = remove_client-KeepsInflight cid g
  IsWhole-KeepsInflight {g} lists _ = same-KeepsInflight g _ refl refl
  IsWhole-KeepsInflight {g} (purges now) _ = same-KeepsInflight g _ refl refl
  IsWhole-KeepsInflight {g} (pongs cid writes payload) _ = pongs-KeepsInflight cid writes payload g
  IsWhole-KeepsInflight {g} (pings cid writes) _ = pings-KeepsInflight cid writes g
  IsWhole-KeepsInflight {g} (closes cid) _ =
      store-KeepsInflight cid (close (g.clients cid)) g (close-inflight (g.clients cid))
  IsWhole-KeepsInflight {g} (sweeps clock key) never = absurd never
  IsWhole-KeepsInflight (publishes visits m key) never = absurd never
  IsWhole-KeepsInflight (flushes f key) never = absurd never
  IsWhole-KeepsInflight (acknowledges cid payload) never = absurd never

-- ===== src/Client.antt =====
-- src/client.go: one websocket connection. Each method here holds the client's mutex throughout.
pub mod Inflight
use goctopus.Prelude.{
  if◌then◌else◌, Text, ℕ, ◌+◌, Bool, true, false, Option, none, some, List, [], ◌∷◌, ◌++◌, nat_key,
}
use goctopus.Prelude.GoMap.{Map, lookup, insert, delete}

pub data Frame : Type 0 where
  text : Text → Frame
  ping : Frame
  pong : Text → Frame

-- `written` is what went out on `conn`, before compression. `done` counts the calls `close(c.done)`:
-- a second one would panic.
pub record Client : Type 0 where
  pub keys : List Text
  pub compress : Bool
  pub inflight : Map ℕ Text
  pub closed : Bool
  pub done : ℕ
  pub written : List Frame

unfoldable pub new_client : List Text → Bool → Client
new_client keys compress = record {
  keys = keys;
  compress = compress;
  inflight = [];
  closed = false;
  done = 0;
  written = [];
}

-- A write to the connection; the peer and the network decide whether it succeeds.
unfoldable pub write : Bool → Frame → Client → Bool × Client
write succeeds frame c =
    if succeeds then (true, record c { written = c.written ++ frame ∷ [] }) else (false, c)

unfoldable pub write_message : Bool → Text → Client → Bool × Client
unfolding write
write_message succeeds payload c = write succeeds (text payload) c

unfoldable pub write_ping : Bool → Client → Bool × Client
unfolding write
write_ping succeeds c = write succeeds ping c

unfoldable pub write_pong : Bool → Text → Client → Bool × Client
unfolding write
write_pong succeeds payload c = write succeeds (pong payload) c

unfoldable pub mark_inflight : ℕ → Text → Client → Bool × Client
mark_inflight id key c = if c.closed then (false, c) else elim (lookup id c.inflight) [
  | some k ↦ (false, c)
  | none ↦ (true, record c { inflight = insert id key c.inflight })
]

unfoldable pub take_inflight : ℕ → Client → Option Text × Client
take_inflight id c = elim (lookup id c.inflight) [
  | some key ↦ (some key, record c { inflight = delete id c.inflight })
  | none ↦ (none, c)
]

unfoldable pub clear_inflight : ℕ → Client → Client
clear_inflight id c = record c { inflight = delete id c.inflight }

unfoldable pub close : Client → Client
close c = if c.closed then c else record c { closed = true; done = c.done + 1 }

-- ===== src/Frames.antt =====
-- src/client.go: `readLoop` and `pingLoop` of one connection. The websocket and deflate readers are
-- parameters.
pub mod Reading
use goctopus.Registry.{remove_client}
use goctopus.Ack.{handle_ack}
use goctopus.Config.{Config}
use goctopus.Message.{Platform}
use goctopus.Storage.{Storage}
use goctopus.Engine.{store, Goctopus}
use goctopus.Client.{write_ping, write_pong, close}
use goctopus.Prelude.{
  ltb, leb, if◌then◌else◌, length, take, Text, ℕ, ◌+◌, ◌%◌, ◌^◌, Bool, true, false, ◌&&◌, Option,
  none, some, List, [], ◌∷◌, ◌++◌,
}

-- What a reader gives: its bytes, and whether it then ends or fails.
pub record Stream : Type 0 where
  pub bytes : Text
  pub ends : Bool

-- `io.ReadAll(io.LimitReader(r, n))`: behind `n` bytes the reader is not asked again.
unfoldable pub read_limited : ℕ → Stream → Option Text
read_limited n r =
    if leb n (length r.bytes) then some (take n r.bytes) else if r.ends then some r.bytes else none

pub data Opcode : Type 0 where
  op_text op_binary op_ping op_pong op_close op_continuation : Opcode

-- A frame whose header `NextFrame` gives. `compressed` is what the extension read off it,
-- `pong_writes` whether a write of a pong succeeds then.
pub record Incoming : Type 0 where
  pub opcode : Opcode
  pub body : Stream
  pub compressed : Bool
  pub pong_writes : Bool

-- `max+1` in an int64, for a limit that is at least 0. It wraps to a negative limit at the largest
-- int64, and behind a negative limit a `LimitReader` ends at once, as behind 0.
unfoldable pub read_limit : ℕ → ℕ
read_limit max = let n = (max + 1) % 2 ^ 64 in if ltb n (2 ^ 63) then n else 0

abbrev pub deflate_tail : Text
deflate_tail = 0 ∷ 0 ∷ 255 ∷ 255 ∷ []

-- `flate` stands for `flate.NewReader`.
module _ (flate : Text → Stream) where
  unfoldable pub inflate : Text → ℕ → Option Text
  unfolding read_limited read_limit
  inflate b max = read_limited (read_limit max) (flate (b ++ deflate_tail))

  -- The payload, `none` where the loop returns.
  unfoldable pub bounded : ℕ → Option Text → Option Text
  bounded max none = none
  bounded max (some payload) = if ltb max (length payload) then none else some payload

  unfoldable pub inflated : ℕ → Bool → Option Text → Option Text
  unfolding bounded inflate
  inflated max deflated none = none
  inflated max deflated (some payload) =
      if deflated then bounded max (inflate payload max) else some payload

  unfoldable pub payload_of : ℕ → Bool → Incoming → Option Text
  unfolding bounded inflated read_limited read_limit
  payload_of max compress i =
      inflated max (compress && i.compressed) (bounded max (read_limited (read_limit max) i.body))

module _ {S : Type 0} where
  unfoldable pub answer_ping : ℕ → Bool → Text → Goctopus S → Bool × Goctopus S
  unfolding store
  answer_ping cid writes payload g =
      let (written, c) = write_pong writes payload (g.clients cid) in
      (written, record g { clients = store g.clients cid c })

  unfoldable pub ping_client : ℕ → Bool → Goctopus S → Bool × Goctopus S
  unfolding store
  ping_client cid writes g =
      let (written, c) = write_ping writes (g.clients cid) in
      (written, record g { clients = store g.clients cid c })

  unfoldable pub close_client : ℕ → Goctopus S → Goctopus S
  unfolding store
  close_client cid g = record g { clients = store g.clients cid (close (g.clients cid)) }

-- What wakes the loop of `pingLoop`: `c.done`, the end of the context, or a tick and whether the
-- write of the ping succeeds.
pub data Wake : Type 0 where
  connection_done context_done : Wake
  ticks : Bool → Wake

module _ {S : Type 0} (st : Storage S) (p : Platform) (cfg : Config) (flate : Text → Stream) where
  -- The switch on the opcode, and whether the loop goes on.
  unfoldable pub handle_frame : ℕ → Incoming → Text → Goctopus S → Bool × Goctopus S
  unfolding handle_ack answer_ping
  handle_frame cid i payload g = elim i.opcode [
    | op_text ↦ (true, handle_ack st p cid payload g)
    | op_binary ↦ (true, handle_ack st p cid payload g)
    | op_ping ↦ answer_ping cid i.pong_writes payload g
    | op_pong ↦ (true, g)
    | op_close ↦ (false, g)
    | op_continuation ↦ (true, g)
  ]

  unfoldable pub receive : ℕ → Incoming → Goctopus S → Bool × Goctopus S
  unfolding handle_frame payload_of
  receive cid i g = elim (payload_of flate cfg.max_message_bytes (g.clients cid).compress i) [
    | none ↦ (false, g)
    | some payload ↦ handle_frame cid i payload g
  ]

  -- The loop over the frames that arrive; behind the last one `NextFrame` fails. With each frame
  -- stands what the other goroutines do before it is handled.
  unfoldable pub receive_all :
      ℕ → List ((Goctopus S → Goctopus S) × Incoming) → Goctopus S → Goctopus S
  unfolding receive
  receive_all cid [] g = g
  receive_all cid ((meanwhile, i) ∷ frames) g =
      let (goes_on, g') = receive cid i (meanwhile g) in
      let rest = receive_all cid frames g' in if goes_on then rest else g'

  unfoldable pub read_loop :
      ℕ
      → List ((Goctopus S → Goctopus S) × Incoming)
      → (Goctopus S → Goctopus S)
      → Goctopus S
      → Goctopus S
  unfolding receive_all remove_client
  read_loop cid frames meanwhile g = remove_client cid (meanwhile (receive_all cid frames g))

module _ {S : Type 0} where
  -- One wake, and whether the loop goes on.
  unfoldable pub ping_round : ℕ → Wake → Goctopus S → Bool × Goctopus S
  unfolding close_client ping_client
  ping_round cid connection_done g = (false, g)
  ping_round cid context_done g = (false, close_client cid g)
  ping_round cid (ticks writes) g =
      let (written, g') = ping_client cid writes g in
      if written then (true, g') else (false, close_client cid g')

  unfoldable pub ping_loop : ℕ → List ((Goctopus S → Goctopus S) × Wake) → Goctopus S → Goctopus S
  unfolding ping_round
  ping_loop cid [] g = g
  ping_loop cid ((meanwhile, w) ∷ wakes) g =
      let (goes_on, g') = ping_round cid w (meanwhile g) in
      let rest = ping_loop cid wakes g' in if goes_on then rest else g'

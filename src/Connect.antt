-- ===== src/Connect.antt =====
-- src/server.go, `handleWs`, and the task that it schedules.
pub mod Admission
use goctopus.Constants.{header_origin}
use goctopus.Prelude.{
  if◌then◌else◌, Text, ℕ, Bool, not, Option, none, some, List, [], ◌∷◌, text_key,
}
use goctopus.Message.{Platform}
use goctopus.Topics.{has_wildcard}
use goctopus.Storage.{Storage}
use goctopus.Config.{origin_allowed, Config}
use goctopus.Request.{get_text, Request}
use goctopus.Auth.{allow, count_auth_fail}
use goctopus.Registry.{register}
use goctopus.Engine.{storage_keys_matching, Goctopus}
use goctopus.Delivery.{send_messages, Flush}

-- What the request meets: the time, the authorizer's keys or its error, and the handshake, which
-- fails or tells whether compression was negotiated.
pub record Upgrade : Type 0 where
  pub now : ℕ
  pub authorized : Option (List Text)
  pub handshake : Option Bool

-- The connection is refused with a status, lost in the handshake, or served.
pub data Connection : Type 0 where
  refused : ℕ → Connection
  lost : Connection
  served : List Text → Connection

module _ {S : Type 0} (st : Storage S) (p : Platform) (cfg : Config) where
  unfoldable pub accept : List Text → Option Bool → Goctopus S → Connection × Goctopus S
  unfolding register
  accept keys none g = (lost, g)
  accept keys (some compress) g = (served keys, register keys compress g)

  unfoldable pub authorize : Upgrade → Goctopus S → Connection × Goctopus S
  unfolding accept count_auth_fail
  authorize u g = elim u.authorized [
    | none ↦ (refused 401, count_auth_fail g)
    | some keys ↦ accept keys u.handshake g
  ]

  unfoldable pub handle_ws : Request → Upgrade → Goctopus S → Connection × Goctopus S
  unfolding authorize
  handle_ws r u g =
      let (allowed, g') = allow p cfg r u.now g in
      if not allowed
      then (refused 429, g')
      else if not (origin_allowed cfg (get_text header_origin r.headers))
      then (refused 403, g')
      else authorize u g'

  unfoldable pub flush_keys : (Text → Flush) → List Text → Goctopus S → Goctopus S
  unfolding send_messages
  flush_keys flushes [] g = g
  flush_keys flushes (k ∷ keys) g = flush_keys flushes keys (send_messages st p (flushes k) k g)

  -- The backlog of one key of the new connection.
  unfoldable pub flush_backlog : (Text → Flush) → Text → Goctopus S → Goctopus S
  unfolding flush_keys storage_keys_matching
  flush_backlog flushes key g =
      let (keys, s) = storage_keys_matching st p key g.storage in
      if has_wildcard key
      then flush_keys flushes keys (record g { storage = s })
      else send_messages st p (flushes key) key g

  -- The scheduled task.
  unfoldable pub flush_backlogs : (Text → Flush) → List Text → Goctopus S → Goctopus S
  unfolding flush_backlog
  flush_backlogs flushes [] g = g
  flush_backlogs flushes (key ∷ keys) g = flush_backlogs flushes keys (flush_backlog flushes key g)

-- ===== src/Tests/Interleaving.antt =====
-- The theorems on the steps of an instance, at a sample run.
use goctopus.Tests.{alice, all_topics, platform, first, clients, queues, server, flush, config}
use goctopus.Server.Losses.{Loses, Step-holds}
use goctopus.Server.Soundness.{Reach-IsSound, IsSound}
use goctopus.Server.{started, Reach, connects, flushes, acknowledges, leaves, starts, steps}
use goctopus.Ack.{handle_ack}
use goctopus.Delivery.{send_messages}
use goctopus.Registry.{remove_client}
use goctopus.Connect.{handle_ws, Upgrade}
use goctopus.Request.{Method, Request}
use goctopus.Engine.{store, Goctopus}
use goctopus.Storage.Memory.Laws.{memory, memory-IsStorage}
use goctopus.Storage.Memory.{MemoryStorage, queue_of}
use goctopus.Storage.Queue.{holds}
use goctopus.Prelude.GoMap.{lookup}
use goctopus.Prelude.{
  codes, Text-discrete, ◌≡◌, refl, ◌⊎◌, true, none, some, [], ◌∷◌, ℕ_discrete, text_key, nat_key,
}

abbrev pub request : Request
request = record {
  method = Method.get;
  path = [];
  query = [];
  headers = [];
  basic_auth = none;
  body = none;
  remote_addr = codes "::1";
}

abbrev pub upgrade : Upgrade
upgrade = record { now = 20; authorized = some (alice ∷ all_topics ∷ []); handshake = some true }

-- A connection is made to a server that was started over the sample queues, a flush of the key
-- writes its messages to the connection, and the connection is closed.
abbrev connected : Goctopus MemoryStorage
connected = (handle_ws memory platform config request upgrade (started queues none none)).1

abbrev pub flushed : Goctopus MemoryStorage
flushed = send_messages memory platform flush alice connected

pub run_reached : Reach memory platform config (remove_client 0 flushed)
run_reached =
    steps (steps (steps (starts queues none none) (connects request upgrade)) (flushes flush alice))
      (leaves 0)

Reach-IsSound_example : IsSound (remove_client 0 flushed)
Reach-IsSound_example = Reach-IsSound memory platform config run_reached

-- The sample server with the message 7 in flight at the first client.
abbrev in_flight : Goctopus MemoryStorage
in_flight = record server {
  clients = store clients 0 (record first { inflight = (7, alice) ∷ [] });
}

old_queued : holds 8 (queue_of in_flight.storage alice) ≡ true
unfolding holds queue_of lookup Text-discrete ℕ_discrete
old_queued = refl

Step-holds_example :
    (holds 8 (queue_of (handle_ack memory platform 0 (7 ∷ []) in_flight).storage alice) ≡ true)
    ⊎ Loses memory queue_of memory-IsStorage platform config {g = in_flight}
        (acknowledges 0 (7 ∷ []))
        alice
        8
Step-holds_example =
    Step-holds memory queue_of memory-IsStorage platform config {g = in_flight}
      (acknowledges 0 (7 ∷ [])) alice 8 old_queued

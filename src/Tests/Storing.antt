-- ===== src/Tests/Storing.antt =====
-- The theorems on acknowledging, sweeping, publishing and the storage, at the sample server.
use goctopus.Tests.{alice, topic, hello, old, platform, first, clients, server, flush}
use goctopus.Storage.Memory.Refinement.{contents, act_all, run-act_all}
use goctopus.Storage.Memory.Tidy.{init-IsTidy, run, Call, adds, deletes, clears}
use goctopus.Storage.Memory.Laws.{memory, memory-IsStorage}
use goctopus.Storage.Memory.{MemoryStorage, queue_of, init, get_queue, add_message, delete_message}
use goctopus.Storage.Queue.{upsert, without, ids}
use goctopus.Publish.Fanout.{publish_view}
use goctopus.Publish.{publish, Visit}
use goctopus.Sweeper.Removal.{unexpired, expired_count, sweep_key_view}
use goctopus.Sweeper.{sweep_key}
use goctopus.Ack.Effect.{handle_ack-inflight, handle_ack_second_copy}
use goctopus.Ack.{id_text, acknowledged, handle_ack}
use goctopus.Delivery.{deliver}
use goctopus.Engine.{store, Goctopus}
use goctopus.Client.{text}
use goctopus.Message.{Message}
use goctopus.Prelude.GoMap.{lookup}
use goctopus.Prelude.{
  if◌then◌else◌, decide, Text, codes, Text-discrete, has, Distinct, ℕ, ◌+◌, ◌≡◌, refl, ◌≢◌, ite,
  true, false, ◌&&◌, none, some, List, [], ◌∷◌, ◌++◌, arith, ℕ_discrete, text_key, nat_key,
}

-- The sample server with the message 7 in flight at the first client.
abbrev sent : Goctopus MemoryStorage
sent = record server { clients = store clients 0 (record first { inflight = (7, alice) ∷ [] }) }

sent_flight : lookup 7 (sent.clients 0).inflight ≡ some alice
unfolding store lookup ℕ_discrete
sent_flight = refl

-- The acknowledgements that name 7 and 8.
seven : acknowledged platform (7 ∷ []) ≡ some 7
unfolding acknowledged id_text lookup Text-discrete ℕ_discrete
seven = refl

handle_ack-inflight_example :
    let g' = handle_ack memory platform 0 (7 ∷ []) sent in
    ((j : Text)
      → queue_of g'.storage j ≡ (
          if decide (Text-discrete alice j) && (memory.delete_message alice 7 sent.storage).0
          then without 7 (queue_of sent.storage alice)
          else queue_of sent.storage j))
    × (lookup 7 (g'.clients 0).inflight ≡ none)
    × ((x : ℕ) → g'.clients x ≡ ite (ℕ_discrete 0 x) (g'.clients 0) (sent.clients x))
handle_ack-inflight_example =
    handle_ack-inflight memory queue_of memory-IsStorage platform 0 7 (7 ∷ []) seven sent alice
      sent_flight

alice-ne-topic : alice ≢ topic
alice-ne-topic e = ground arith

sent_open : (sent.clients 0).closed ≡ false
unfolding store ℕ_discrete
sent_open = refl

handle_ack_second_copy_example :
    let g' = handle_ack memory platform 0 (7 ∷ []) sent in
    (queue_of g'.storage topic ≡ queue_of sent.storage topic)
    × (((deliver platform flush topic hello (codes "{}") 0 g').clients 0).written
        ≡ (sent.clients 0).written ++ text (codes "{}") ∷ [])
handle_ack_second_copy_example =
    handle_ack_second_copy memory queue_of memory-IsStorage platform 0 7 (7 ∷ []) seven sent alice
      topic hello flush (codes "{}") sent_flight sent_open alice-ne-topic refl refl

answers : (memory.get_queue alice server.storage).0 ≢ none
unfolding get_queue
answers e = cc

deletes_always : (k : Text) (id : ℕ) (s : MemoryStorage) → (memory.delete_message k id s).0 ≡ true
unfolding delete_message
deletes_always k id s = refl

alice-ids : Distinct (ids (queue_of server.storage alice))
unfolding queue_of lookup ids has Text-discrete ℕ_discrete
alice-ids = (refl, (refl, tt))

sweep_key_view_example :
    let g' = sweep_key memory platform (λ id. 100) alice server in
    ((j : Text)
      → queue_of g'.storage j ≡ (
          if decide (Text-discrete alice j)
          then unexpired platform (λ id. 100) (queue_of server.storage alice)
          else queue_of server.storage j))
    × (g'.metrics.expired
        ≡ server.metrics.expired
          + expired_count platform (λ id. 100) (queue_of server.storage alice))
sweep_key_view_example =
    sweep_key_view memory queue_of memory-IsStorage deletes_always platform (λ id. 100) alice server
      answers alice-ids

adds_always : (k : Text) (m : Message) (s : MemoryStorage) → (memory.add_message k m s).0 ≡ true
unfolding add_message
adds_always k m s = refl

abbrev on_visit : Text → Visit
on_visit key = record { at = 20; flush = flush }

hello_targets : Distinct (topic ∷ alice ∷ [])
unfolding has
hello_targets = ground arith

publish_view_example :
    queue_of (publish memory platform on_visit old (topic ∷ alice ∷ []) server).storage topic ≡ (
      if has topic (topic ∷ alice ∷ [])
      then upsert (record old { key = topic }) (queue_of server.storage topic)
      else queue_of server.storage topic)
publish_view_example =
    publish_view memory queue_of memory-IsStorage adds_always platform old on_visit
      (topic ∷ alice ∷ []) topic server hello_targets

-- A history of calls that adds, replaces, removes and clears.
abbrev calls : List Call
calls = adds alice hello ∷ adds alice old ∷ adds topic hello ∷ deletes alice 7 ∷ clears topic ∷ []

run-act_all_example : contents (run init calls) ≡ act_all calls (contents init)
run-act_all_example = run-act_all calls init init-IsTidy

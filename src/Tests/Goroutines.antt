-- ===== src/Tests/Goroutines.antt =====
-- The theorems on the goroutines of an instance, at a sample run.
use goctopus.Storage.Queue.{find, ids}
use goctopus.Prelude.Collect.{was_seen, collect_all, nothing_collected}
use goctopus.Topics.{has_wildcard, key_matches}
use goctopus.Client.{write_message, mark_inflight}
use goctopus.Engine.{clients_for_key, queue_message}
use goctopus.Config.{origin_allowed}
use goctopus.Message.{marshal, is_expired, Message}
use goctopus.Interleaving.Counting.{sent_count, acked_count, flying}
use goctopus.Interleaving.Losses.{doomed-repost}
use goctopus.Interleaving.Once.{sent_count-le}
use goctopus.Interleaving.Progress.{Ends, waits-Ends}
use goctopus.Interleaving.Exclusion.{owner, Runs-IsExclusive, IsExclusive}
use goctopus.Ack.{acknowledged}
use goctopus.Prelude.GoMap.{lookup, insert}
use goctopus.Interleaving.{update, send_lock, advance, Access, World, idle, waits, locked, doomed}
use goctopus.Tests.Interleaving.{request, upgrade}
use goctopus.Auth.{allow}
use goctopus.Connect.{authorize, handle_ws}
use goctopus.Storage.Memory.Laws.{memory, memory-IsStorage}
use goctopus.Storage.Memory.{MemoryStorage, queue_of, get_queue, add_message, delete_message}
use goctopus.Server.{started, connects}
use goctopus.Prelude.{
  length, Text, Text-discrete, has, Distinct, ℕ, ◌+◌, ◌≤◌, ◌≡◌, refl, ◌≢◌, ◌⊎◌, true, false, none,
  some, List, [], ◌∷◌, ◌++◌, ℕ_discrete, text_key, nat_key,
}
use goctopus.Tests.{alice, hello, platform, queues, server, config}
use goctopus.Interleaving.Runs.{
  sends, takes, Event, System, Moves, Runs, sent, acked, schedules, receives, accesses, performs,
  begins, moves,
}

abbrev hash : Text → ℕ
hash key = length key

record Run : Type 0 where
  last : System MemoryStorage
  trace : List Event
  reach : Runs memory platform config hash last trace

abbrev moved :
    {s : System MemoryStorage} {new : List Event} (r : Run)
    → Moves memory platform config hash r.last s new
    → Run
moved {s} {new} r m = record { last = s; trace = new ++ r.trace; reach = moves r.reach m }

abbrev at_20 : Access
at_20 = record { clock = 20; writes = true }

-- An access at the time 20 by a goroutine, whose write succeeds.
abbrev accessed : ℕ → Run → Run
accessed i r = moved r (accesses i at_20)

-- A client connects to a server with the sample queues, and one goroutine begins to flush the key.
abbrev connected : Run
connected =
    moved (record { last = _; trace = _; reach = begins queues none none })
      (performs (connects request upgrade) tt)

abbrev flushing : Run
flushing = moved connected (schedules 0 alice refl)

-- It has the lock, while another one waits for it.
abbrev locking : Run
locking = accessed 0 flushing

second_idle : locking.last.pcs 1 ≡ idle
unfolding update ℕ_discrete
second_idle = refl

abbrev contended : Run
contended = moved locking (schedules 1 alice second_idle)

-- It has written the message 7, and the client acknowledges that.
abbrev written_once : Run
written_once = accessed 0 (accessed 0 (accessed 0 (accessed 0 (accessed 0 contended))))

third_idle : written_once.last.pcs 2 ≡ idle
unfolding update ℕ_discrete
third_idle = refl

named : acknowledged platform (7 ∷ []) ≡ some 7
unfolding acknowledged lookup Text-discrete ℕ_discrete
named = refl

abbrev answered : Run
answered = moved written_once (receives 2 0 7 (7 ∷ []) third_idle named)

was_written : answered.trace ≡ acked 0 7 alice ∷ sent 0 7 ∷ []
unfolding update advance started handle_ws allow authorize ℕ_discrete lookup Text-discrete takes
    clients_for_key origin_allowed has_wildcard insert key_matches collect_all was_seen
    nothing_collected get_queue is_expired marshal mark_inflight write_message sends
was_written = refl

Runs-IsExclusive_example : IsExclusive hash contended.last
Runs-IsExclusive_example = Runs-IsExclusive memory platform config hash contended.reach

second_waits : contended.last.pcs 1 ≡ waits alice
unfolding update ℕ_discrete
second_waits = refl

waits-Ends_example :
    ((advance memory platform hash at_20 (contended.last.pcs 1) contended.last.world).1
      ≡ locked alice)
    ⊎ ((j : ℕ) × (k : Text) × (j ≢ 1)
        × (owner (contended.last.pcs j) ≡ some k)
        × (send_lock hash k ≡ send_lock hash alice)
        × Ends memory platform hash (contended.last.pcs j))
waits-Ends_example =
    waits-Ends memory platform config hash 1 alice at_20 contended.reach second_waits

sent_count-le_example :
    sent_count 0 7 answered.trace
    ≤ acked_count 0 7 answered.trace + flying 0 7 (answered.last.world.node.clients 0)
sent_count-le_example = sent_count-le 0 7 memory platform config hash answered.reach

-- The goroutine that answers the `ACK` deletes the message.
abbrev deletion :
    Moves memory platform config hash answered.last
      (accessed 2 answered).last
      (sends at_20 (answered.last.pcs 2))
deletion = accesses 2 at_20

-- A sweep found an earlier message with the id 7 expired; it is posted again.
abbrev earlier : Message
earlier = record hello { date = 0 }

abbrev at_server : World MemoryStorage
at_server = record { node = server; held = λ shard. false }

once_queued : Distinct (ids (queue_of queues alice))
unfolding queue_of ids has lookup Text-discrete ℕ_discrete
once_queued = (refl, (refl, tt))

posted_again : (memory.add_message alice hello queues).0 ≡ true
unfolding add_message
posted_again = refl

deleted_again : (memory.delete_message alice 7 (memory.add_message alice hello queues).1).0 ≡ true
unfolding delete_message add_message
deleted_again = refl

doomed-repost_example :
    let posted = record at_server { node = queue_message memory platform hello server } in
    let after = (advance memory platform hash at_20 (doomed alice earlier [] 0) posted).0 in
    (find 7 (queue_of posted.node.storage alice) ≡ some hello)
    × (find 7 (queue_of after.node.storage alice) ≡ none)
doomed-repost_example =
    doomed-repost memory platform config hash queue_of memory-IsStorage at_20 at_server earlier
      hello [] 0 once_queued refl posted_again deleted_again

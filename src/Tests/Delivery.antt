-- ===== src/Tests/Delivery.antt =====
-- The theorems on delivery, acknowledgement, sweeping and publishing, at the sample server.
use goctopus.Prelude.{◌≢◌, none, arith, text_key, nat_key}
use goctopus.Storage.Memory.{queue_of, get_queue}
use goctopus.Storage.Memory.Laws.{memory, memory-IsStorage}
use goctopus.Delivery.{send_messages}
use goctopus.Delivery.Settled.{AllSettled}
use goctopus.Delivery.Flushes.{receivers, SameEffect, send_messages-AllSettled, send_messages_again}
use goctopus.Tests.{alice, platform, server, flush, later_flush}

answers : (memory.get_queue alice server.storage).0 ≢ none
unfolding get_queue
answers e = cc

send_messages-AllSettled_example :
    AllSettled platform flush.clock
      (receivers memory queue_of memory-IsStorage platform alice server)
      (queue_of server.storage alice)
      (send_messages memory platform flush alice server).clients
send_messages-AllSettled_example =
    send_messages-AllSettled memory queue_of memory-IsStorage platform alice flush server answers

send_messages_again_example :
    SameEffect memory queue_of memory-IsStorage platform alice
      (send_messages memory platform later_flush alice
        (send_messages memory platform flush alice server))
      (send_messages memory platform flush alice server)
send_messages_again_example =
    send_messages_again memory queue_of memory-IsStorage platform alice flush later_flush server
      answers (λ id. omega arith)

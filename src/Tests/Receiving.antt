-- ===== src/Tests/Receiving.antt =====
-- The theorems on the Go client, at sample ids.
use goctopus.Tests.{alice, topic, all_topics}
use goctopus.GoClient.Recent.{mark_seen_again}
use goctopus.GoClient.Window.{new_subscriber-IsWindow}
use goctopus.GoClient.{new_subscriber, mark_seen, mark_all}
use goctopus.Prelude.GoMap.{lookup}
use goctopus.Prelude.{length, ◌<ℤ◌, pos, ◌≡◌, refl, true, false, [], ◌∷◌, arith, text_key, nat_key}

fresh_id : (mark_seen alice new_subscriber).0 ≡ true
unfolding mark_seen new_subscriber lookup
fresh_id = refl

limit_left : pos (length (topic ∷ all_topics ∷ [])) <ℤ new_subscriber.dedupe_limit
unfolding new_subscriber
limit_left = omega arith

mark_seen_again_example :
    (mark_seen alice (mark_all (topic ∷ all_topics ∷ []) (mark_seen alice new_subscriber).1)).0
    ≡ false
mark_seen_again_example =
    mark_seen_again alice (topic ∷ all_topics ∷ []) new_subscriber new_subscriber-IsWindow
      (λ e. ground arith) fresh_id limit_left

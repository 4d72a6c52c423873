-- ===== src/Tests/Reading.antt =====
-- The theorems on messages and on the in-flight set, at sample values.
use goctopus.Prelude.GoMap.{lookup, insert}
use goctopus.Tests.{topic, hello, platform}
use goctopus.Message.Reading.{unmarshal-IsReceived, unmarshal-eq-panic_iff, IsReceived}
use goctopus.Message.{
  add_target, add_targets, targets, choose_id, complete, unmarshal, Message, Posted, ok, panic,
}
use goctopus.Prelude.Collect.{was_seen, collect, nothing_collected}
use goctopus.Prelude.{
  Text, codes, Text-discrete, has, ◌≡◌, refl, ◌↔◌, none, some, [], ◌∷◌, ℕ_discrete, text_key,
  nat_key,
}

-- What the sample body is read as: with the default lifetime and a random id.
abbrev arrived : Message
arrived = record hello { id = 9; keys = topic ∷ []; expire = codes "30m"; date = 20 }

unmarshalled : unmarshal platform (codes "30m") 20 (some 9) (some (codes "{}")) ≡ ok arrived
unfolding unmarshal complete choose_id targets add_targets add_target nothing_collected collect
    Text-discrete has was_seen lookup insert ℕ_discrete
unmarshalled = refl

unmarshal-IsReceived_example :
    (b : Text) × (posted : Posted) × (some (codes "{}") ≡ some b)
    × (platform.unmarshal_posted b ≡ some (some posted))
    × IsReceived platform (codes "30m") 20 (some 9) posted arrived
    × (arrived.key ≡ posted.key)
    × (arrived.keys ≡ posted.keys)
unmarshal-IsReceived_example =
    unmarshal-IsReceived platform (codes "30m") 20 (some 9) (some (codes "{}")) arrived unmarshalled

unmarshal-eq-panic_iff_example :
    (unmarshal platform (codes "30m") 20 (some 9) (some (codes "null")) ≡ panic)
    ↔ (platform.unmarshal_posted (codes "null") ≡ some none)
unmarshal-eq-panic_iff_example =
    unmarshal-eq-panic_iff platform (codes "30m") 20 (some 9) (codes "null")

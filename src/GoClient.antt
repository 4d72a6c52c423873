-- ===== src/GoClient.antt =====
-- clients/go/goctopus.go: the ids that the Go client has already handed to its caller.
pub mod Window
pub mod Recent
pub mod Session
pub mod Retries
use goctopus.Message.{is_empty}
use goctopus.Prelude.GoMap.{Map, lookup, insert, delete}
use goctopus.Prelude.{
  if◌then◌else◌, length, ltb_ℤ, ℤ, pos, Text, Bool, true, false, none, some, List, [], ◌∷◌, ◌++◌,
  text_key,
}

-- `seen` is a set: a map to the empty struct.
pub record Subscriber : Type 0 where
  pub dedupe_limit : ℤ
  pub seen : Map Text (Unit {0})
  pub seen_order : List Text

unfoldable pub new_subscriber : Subscriber
new_subscriber = record { dedupe_limit = pos 1000; seen = []; seen_order = [] }

-- The oldest id is forgotten. The order is not empty here: `markSeen` has just added to it.
unfoldable pub forget_oldest : List Text → Subscriber → Subscriber
forget_oldest [] c = c
forget_oldest (oldest ∷ rest) c = record c { seen = delete oldest c.seen; seen_order = rest }

unfoldable pub bound_seen : Subscriber → Subscriber
unfolding forget_oldest
bound_seen c =
    if ltb_ℤ c.dedupe_limit (pos (length c.seen_order)) then forget_oldest c.seen_order c else c

unfoldable pub add_seen : Text → Subscriber → Subscriber
unfolding bound_seen
add_seen id c =
    bound_seen (record c { seen = insert id tt c.seen; seen_order = c.seen_order ++ id ∷ [] })

-- Whether the caller is handed the message.
unfoldable pub mark_seen : Text → Subscriber → Bool × Subscriber
unfolding add_seen
mark_seen id c =
    if is_empty id
    then (true, c)
    else elim (lookup id c.seen) [ some u ↦ (false, c) | none ↦ (true, add_seen id c) ]

-- The loop of `session`, over the ids that arrive.
unfoldable pub mark_all : List Text → Subscriber → Subscriber
unfolding mark_seen
mark_all [] c = c
mark_all (id ∷ ids) c = mark_all ids (mark_seen id c).1

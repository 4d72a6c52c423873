-- ===== src/History.antt =====
-- src/history.go: the recent messages of each key. Each method holds the mutex throughout.
pub mod Retention
use goctopus.Prelude.{
  if◌then◌else◌, length, drop, pos_part, ◌-ℤ◌, ltb_ℤ, leb_ℤ, ℤ, pos, Text, ℕ, ◌-◌, Bool, ◌||◌,
  Option, none, some, List, [], ◌∷◌, ◌++◌, text_key,
}
use goctopus.Prelude.GoMap.{Map, lookup, insert, delete}
use goctopus.Message.{is_empty, Message}

pub record HistItem : Type 0 where
  pub m : Message
  pub at : ℕ

pub record HistoryStore : Type 0 where
  pub size : ℤ
  pub ttl : ℤ
  pub by_key : Map Text (List HistItem)

unfoldable pub new_history_store : ℤ → ℤ → HistoryStore
new_history_store size ttl = record { size = size; ttl = ttl; by_key = [] }

-- `items[i].at.Before(now.Add(-h.ttl))`
unfoldable pub is_aged : ℤ → ℕ → HistItem → Bool
is_aged ttl now item = ltb_ℤ (pos item.at) (pos now -ℤ ttl)

-- The loop of `prune`, and the slice behind it.
unfoldable pub drop_aged : ℤ → ℕ → List HistItem → List HistItem
drop_aged ttl now [] = []
drop_aged ttl now (x ∷ xs) =
    let rest = drop_aged ttl now xs in if is_aged ttl now x then rest else x ∷ xs

unfoldable pub prune : HistoryStore → List HistItem → ℕ → List HistItem
unfolding drop_aged is_aged
prune h items now = if leb_ℤ h.ttl (pos 0) then items else drop_aged h.ttl now items

-- `h.byKey[key]`, nil where there is no entry.
unfoldable pub items_of : HistoryStore → Text → List HistItem
items_of h key = elim (lookup key h.by_key) [ none ↦ [] | some items ↦ items ]

-- `items[len(items)-h.size:]` where there are more than `h.size`, which is positive here.
unfoldable pub last_items : ℤ → List HistItem → List HistItem
last_items size items =
    if ltb_ℤ size (pos (length items)) then drop (length items - pos_part size) items else items

-- A nil store is `none`.
unfoldable pub add : Text → Message → ℕ → Option HistoryStore → Option HistoryStore
unfolding prune items_of last_items
add key m now none = none
add key m now (some h) =
    if leb_ℤ h.size (pos 0)
    then some h
    else some (record h {
      by_key =
          insert key
            (last_items h.size (prune h (items_of h key) now ++ record { m = m; at = now } ∷ []))
            h.by_key;
    })

unfoldable pub messages : List HistItem → List Message
messages [] = []
messages (x ∷ xs) = x.m ∷ messages xs

-- The rest of `get`, once the items are pruned.
unfoldable pub answer : Text → List HistItem → HistoryStore → List Message × HistoryStore
unfolding messages
answer key [] h = ([], record h { by_key = delete key h.by_key })
answer key (x ∷ xs) h = (messages (x ∷ xs), record h { by_key = insert key (x ∷ xs) h.by_key })

unfoldable pub get : Text → ℕ → Option HistoryStore → List Message × Option HistoryStore
unfolding prune items_of answer
get key now none = ([], none)
get key now (some h) =
    if leb_ℤ h.size (pos 0)
    then ([], some h)
    else let (out, h') = answer key (prune h (items_of h key) now) h in (out, some h')

-- The loop of `purge`, over the entries.
unfoldable pub purge_entries :
    HistoryStore → ℕ → Map Text (List HistItem) → Map Text (List HistItem)
unfolding prune
purge_entries h now [] = []
purge_entries h now ((k, items) ∷ rest) =
    let kept = prune h items now in
    let others = purge_entries h now rest in if is_empty kept then others else (k, kept) ∷ others

unfoldable pub purge : ℕ → Option HistoryStore → Option HistoryStore
unfolding purge_entries
purge now none = none
purge now (some h) =
    if leb_ℤ h.size (pos 0) || leb_ℤ h.ttl (pos 0)
    then some h
    else some (record h { by_key = purge_entries h now h.by_key })

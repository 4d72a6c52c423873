-- ===== src/History/Retention.antt =====
-- How many messages the history keeps of a key, and how old they are.
use goctopus.Prelude.GoMap.{insert, lookup-insert}
use goctopus.Message.{Message}
use goctopus.Prelude.{
  leb, if◌then◌else◌, Bool-cases, decide, length, take, take-append-drop, length-drop, pos_part,
  ◌-ℤ◌, ltb_ℤ, ◌≤ℤ◌, ◌<ℤ◌, ℤ, pos, Text, Text-discrete, ℕ, ◌+◌, ◌-◌, ◌≤◌, min, ◌≡◌, refl, inl, inr,
  false, not, Option, none, some, List, [], ◌∷◌, ◌++◌, map, arith, text_key,
}
use goctopus.History.{
  is_aged, drop_aged, prune, items_of, last_items, add, messages, answer, get, HistItem,
  HistoryStore,
}

-- The items that are at most as old as a lifetime, wherever they stand.
pub fresh : ℤ → ℕ → List HistItem → List HistItem
fresh ttl now [] = []
fresh ttl now (x ∷ xs) =
    let rest = fresh ttl now xs in if leb now (x.at + pos_part ttl) then x ∷ rest else rest

is_aged_lem :
    (ttl : ℤ) (now : ℕ) (x : HistItem)
    → pos 0 <ℤ ttl
    → is_aged ttl now x ≡ not (leb now (x.at + pos_part ttl))
unfolding is_aged ◌-ℤ◌
is_aged_lem ttl now x h = ground arith

-- The times of the items do not fall, from a first one.
abbrev pub InOrder : ℕ → List HistItem → Type 0
InOrder t [] = Unit
InOrder t (x ∷ xs) = (t ≤ x.at) × InOrder x.at xs

InOrder-lower : (s t : ℕ) (xs : List HistItem) → s ≤ t → InOrder t xs → InOrder s xs
InOrder-lower s t [] h o = tt
InOrder-lower s t (x ∷ xs) h o = (omega arith, o.1)

young_later :
    (ttl : ℤ) (now : ℕ) (x y : HistItem)
    → x.at ≤ y.at
    → is_aged ttl now x ≡ false
    → is_aged ttl now y ≡ false
unfolding is_aged ◌-ℤ◌
young_later ttl now x y h a = ground arith

-- In order, an item that is not aged has none behind it that is.
fresh_all :
    (ttl : ℤ) (now : ℕ) (x : HistItem) (xs : List HistItem)
    → pos 0 <ℤ ttl
    → is_aged ttl now x ≡ false
    → InOrder x.at xs
    → fresh ttl now xs ≡ xs
unfolding fresh
fresh_all ttl now x [] h a o = refl
fresh_all ttl now x (y ∷ ys) h a o =
    ground (arith, young_later ttl now x y o.0 a, is_aged_lem ttl now y h, fresh_all ttl now y ys h)

drop_aged-fresh :
    (ttl : ℤ) (now t : ℕ) (xs : List HistItem)
    → pos 0 <ℤ ttl
    → InOrder t xs
    → drop_aged ttl now xs ≡ fresh ttl now xs
unfolding drop_aged fresh
drop_aged-fresh ttl now t [] h o = refl
drop_aged-fresh ttl now t (x ∷ xs) h o = ground (
  arith,
  drop_aged-fresh ttl now x.at xs h o.1,
  is_aged_lem ttl now x h,
  fresh_all ttl now x xs h,
)

length-last_items :
    (size : ℤ) (xs : List HistItem) → pos 0 ≤ℤ size → pos (length (last_items size xs)) ≤ℤ size
unfolding last_items
length-last_items size xs h = ground (arith, length-drop (length xs - pos_part size) xs)

items_of-insert :
    (h : HistoryStore) (key j : Text) (items : List HistItem)
    → items_of (record h { by_key = insert key items h.by_key }) j
      ≡ (if decide (Text-discrete key j) then items else items_of h j)
unfolding items_of
items_of-insert h key j items = ground (arith, lookup-insert key j items h.by_key)

-- A nil store has no items.
abbrev pub stored : Option HistoryStore → Text → List HistItem
stored none key = []
stored (some h) key = items_of h key

stored-add_self :
    (key : Text) (m : Message) (now t : ℕ) (h : HistoryStore)
    → pos 0 <ℤ h.size
    → pos 0 <ℤ h.ttl
    → InOrder t (items_of h key)
    → stored (add key m now (some h)) key
      ≡ last_items h.size (fresh h.ttl now (items_of h key) ++ record { m = m; at = now } ∷ [])
unfolding add prune
stored-add_self key m now t h size ttl o = ground (
  arith,
  items_of-insert h key key
      (last_items h.size (drop_aged h.ttl now (items_of h key) ++ record { m = m; at = now } ∷ [])),
  drop_aged-fresh h.ttl now t (items_of h key) ttl o,
)

stored-add_others :
    (key j : Text) (m : Message) (now : ℕ) (h : HistoryStore)
    → stored (add key m now (some h)) j
      ≡ (if decide (Text-discrete key j) then stored (add key m now (some h)) key else items_of h j)
unfolding add
stored-add_others key j m now h = ground (
  arith,
  items_of-insert h key j
      (last_items h.size (prune h (items_of h key) now ++ record { m = m; at = now } ∷ [])),
)

-- What is kept is an end of the list, as long as the size allows.
last_items_lem :
    (size : ℤ) (xs : List HistItem)
    → pos 0 <ℤ size
    → ((dropped : List HistItem) × (dropped ++ last_items size xs ≡ xs))
      × (length (last_items size xs) ≡ min (pos_part size) (length xs))
unfolding last_items
last_items_lem size xs h = elim (Bool-cases (ltb_ℤ size (pos (length xs)))) [
  | inl e ↦
      let n = length xs - pos_part size in
      rw e ((take n xs, take-append-drop n xs), ground (arith, length-drop n xs))
  | inr e ↦ rw e (([], refl), ground arith)
]

-- With a size and a lifetime that are positive, and the items of the key in order, take the items
-- of the key that are not older than the lifetime, in their order, with the added message behind
-- them. An addition
-- leaves of its key an end of that list, as long as the whole list or the size, whichever is less;
-- every other key is left alone.
pub stored-add :
    (key : Text) (m : Message) (now t : ℕ) (h : HistoryStore)
    → pos 0 <ℤ h.size
    → pos 0 <ℤ h.ttl
    → InOrder t (items_of h key)
    → let kept = fresh h.ttl now (items_of h key) ++ record { m = m; at = now } ∷ [] in
      let after = stored (add key m now (some h)) in
      ((dropped : List HistItem) × (dropped ++ after key ≡ kept))
      × (length (after key) ≡ min (pos_part h.size) (length kept))
      × ((j : Text) → after j ≡ (if decide (Text-discrete key j) then after key else items_of h j))
stored-add key m now t h size ttl o =
    let kept = fresh h.ttl now (items_of h key) ++ record { m = m; at = now } ∷ [] in
    let self = stored-add_self key m now t h size ttl o in
    let facts = last_items_lem h.size kept size in
    ((facts.0.0, rw self facts.0.1), rw self facts.1, λ j. stored-add_others key j m now h)

-- If a key holds no more messages than the size, it holds no more after an addition to any key.
pub length-add_le :
    (key j : Text) (m : Message) (now : ℕ) (h : HistoryStore)
    → pos (length (items_of h j)) ≤ℤ h.size
    → pos (length (stored (add key m now (some h)) j)) ≤ℤ h.size
unfolding add
length-add_le key j m now h le = ground (
  arith,
  items_of-insert h key j
      (last_items h.size (prune h (items_of h key) now ++ record { m = m; at = now } ∷ [])),
  length-last_items h.size (prune h (items_of h key) now ++ record { m = m; at = now } ∷ []),
)

messages-map : (xs : List HistItem) → messages xs ≡ map (λ x. x.m) xs
unfolding messages
messages-map [] = refl
messages-map (x ∷ xs) = rw (messages-map xs) refl

messages-answer :
    (key : Text) (xs : List HistItem) (h : HistoryStore) → (answer key xs h).0 ≡ map (λ x. x.m) xs
unfolding answer messages
messages-answer key [] h = refl
messages-answer key (x ∷ xs) h = messages-map (x ∷ xs)

-- With a size and a lifetime that are positive, asked for a key whose items are in order, the
-- history gives the messages that are not older than the lifetime, all of them and in that order.
pub get-fresh :
    (key : Text) (now t : ℕ) (h : HistoryStore)
    → pos 0 <ℤ h.size
    → pos 0 <ℤ h.ttl
    → InOrder t (items_of h key)
    → (get key now (some h)).0 ≡ map (λ x. x.m) (fresh h.ttl now (items_of h key))
unfolding get prune
get-fresh key now t h size ttl o = ground (
  arith,
  messages-answer key (drop_aged h.ttl now (items_of h key)) h,
  drop_aged-fresh h.ttl now t (items_of h key) ttl o,
)
